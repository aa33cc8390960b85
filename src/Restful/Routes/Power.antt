-- ===== src/Restful/Routes/Power.antt =====
-- Which request changes the power save mode.
use mathlib.Core.Path.{subst}
use ovm.Base.{
  Bytes, bytes, bytes_dec, same, Bool, true, false, if◌then◌else◌, ◌&&◌, Bool-cases, none, some,
  Option-cases, inl, inr, ◌≡◌, ◌≢◌, refl, ◌∙◌, arith,
}
use ovm.Restful.Routes.{
  Method, get_method, post_method, put_method, other_method, Route, power_route, Environment,
  Server, routes, find_route, route_of, serve, serve_found, handle, set_power,
}

abbrev pub power_path : Bytes
power_path = bytes "/power-save-mode"

abbrev pub is_put : Method → Bool
is_put put_method = true
is_put _ = false

-- The mode behind a request: that of a PUT to its path with a body that can be read.
unfoldable pub mode_after : Environment → Method → Bytes → Bytes → Bool → Bool
mode_after env method path body old =
    if same path power_path && is_put method
    then elim (env.power_body body) [ none ↦ old | some enable ↦ enable ]
    else old

route_of_only : (p : Bytes) → route_of p ≡ some power_route → same p power_path ≡ true
unfolding route_of routes find_route
route_of_only p h = ground arith

route_of-power_path : (p : Bytes) → same p power_path ≡ true → route_of p ≡ some power_route
unfolding route_of routes find_route bytes_dec
route_of-power_path p h =
    let at_path : power_path ≡ p = ground arith in
    subst (λ q. route_of q ≡ some power_route) at_path refl

serve_other :
    (env : Environment) (r : Route) (method : Method) (body : Bytes) (s : Server)
    → r ≢ power_route
    → (serve env r method body s).1.power_save_mode ≡ s.power_save_mode
unfolding serve
serve_other env r method body s h = ground arith

serve_power :
    (env : Environment) (method : Method) (body : Bytes) (s : Server)
    → (serve env power_route method body s).1.power_save_mode ≡ (
        if is_put method
        then elim (env.power_body body) [ none ↦ s.power_save_mode | some enable ↦ enable ]
        else s.power_save_mode)
unfolding serve set_power
serve_power env get_method body s = refl
serve_power env post_method body s = refl
serve_power env other_method body s = refl
serve_power env put_method body s = ground arith

-- Of all requests, only a PUT to /power-save-mode with a body that can be read sets the mode.
pub handle-mode_after :
    (env : Environment) (method : Method) (path body : Bytes) (s : Server)
    → (handle env method path body s).1.power_save_mode
      ≡ mode_after env method path body s.power_save_mode
unfolding handle serve_found mode_after
handle-mode_after env method path body s = elim (Bool-cases (same path power_path)) [
  | inl at_path ↦
      rw (route_of-power_path path at_path) (serve_power env method body s ∙ ground arith)
  | inr elsewhere ↦ elim (Option-cases (route_of path)) [
    | inl e ↦ rw e (ground arith)
    | inr (r, e) ↦ rw e (
        serve_other env r method body s (λ same_route. ground (arith, route_of_only path))
        ∙ ground arith)
  ]
]
