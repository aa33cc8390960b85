-- ===== src/Restful/Routes/Laws.antt =====
-- What a request can change.
use ovm.Base.{
  none, some, Option-cases, Bytes, Bool, true, false, not, Option, some, List, [], ◌∷◌, ◌++◌, ◌≡◌,
  ◌≢◌, refl, append-nil, Option-cases, arith, inl, inr,
}
use ovm.Os.Outcome.{ok, err, is_ok}
use ovm.Restful.Routes.{
  Method, get_method, post_method, put_method, Route, info_route, state_route, pause_route,
  resume_route, request_stop_route, stop_route, power_route, exec_route, VmCall, pause_call,
  resume_call, request_stop_call, stop_call, Environment, Response, http_error, vm_failure,
  not_found, Server, route_of, serve, serve_found, handle,
}

abbrev pub method_of : Route → Method
method_of info_route = get_method
method_of state_route = get_method
method_of power_route = put_method
method_of _ = post_method

abbrev pub is_error : Response → Bool
is_error (http_error n text) = true
is_error (vm_failure e) = true
is_error not_found = true
is_error _ = false

abbrev calls_of : Option Route → List VmCall
calls_of (some pause_route) = pause_call ∷ []
calls_of (some resume_route) = resume_call ∷ []
calls_of (some request_stop_route) = request_stop_call ∷ []
calls_of (some stop_route) = stop_call ∷ []
calls_of _ = []

serve_refused :
    (env : Environment) (r : Route) (method : Method) (body : Bytes) (s : Server)
    → method ≢ method_of r
    → (is_error (serve env r method body s).0 ≡ true) × ((serve env r method body s).1 ≡ s)
unfolding serve
serve_refused env r method body s h = (ground arith, ground arith)

-- A request with another method than its route's, or to no route, is refused and changes nothing.
handle_refused :
    (env : Environment) (method : Method) (path body : Bytes) (s : Server)
    → ((r : Route) → route_of path ≡ some r → method ≢ method_of r)
    → (is_error (handle env method path body s).0 ≡ true) × ((handle env method path body s).1 ≡ s)
unfolding handle
handle_refused env method path body s h = elim (Option-cases (route_of path)) [
  | inl e ↦ rw e (refl, refl)
  | inr (r, e) ↦ rw (e, serve_found) (serve_refused env r method body s (h r e))
]

abbrev power_after : Route → Option Bool → Bool → Bool
power_after power_route (some enable) old = enable
power_after _ _ old = old

is_none : {A : Type 0} → Option A → Bool
is_none none = true
is_none (some a) = false

-- Whether a request to the route is answered with an error, by the machine's answer to the call that
-- the route makes, or by the body that it reads.
unfoldable pub fails : Environment → Route → Bytes → Bool
unfolding is_none
fails env info_route body = false
fails env state_route body = false
fails env pause_route body = not (is_ok env.pause_answer)
fails env resume_route body = not (is_ok env.resume_answer)
fails env stop_route body = not (is_ok env.stop_answer)
fails env request_stop_route body = elim env.request_stop_answer [
  | err e ↦ true
  | ok granted ↦ not granted
]
fails env power_route body = is_none (env.power_body body)
fails env exec_route body = is_none (env.exec_body body)

serve_accepted :
    (env : Environment) (r : Route) (body : Bytes) (s : Server)
    → let (response, t) = serve env r (method_of r) body s in
      (t.calls ≡ s.calls ++ calls_of (some r))
      × (t.power_save_mode ≡ power_after r (env.power_body body) s.power_save_mode)
      × (t.info ≡ s.info)
      × (is_error response ≡ fails env r body)
unfolding serve fails
serve_accepted env info_route body s =
    (ground (arith, append-nil s.calls), ground arith, ground arith, ground arith)
serve_accepted env state_route body s =
    (ground (arith, append-nil s.calls), ground arith, ground arith, ground arith)
serve_accepted env pause_route body s =
    (ground (arith, append-nil s.calls), ground arith, ground arith, ground arith)
serve_accepted env resume_route body s =
    (ground (arith, append-nil s.calls), ground arith, ground arith, ground arith)
serve_accepted env request_stop_route body s =
    (ground (arith, append-nil s.calls), ground arith, ground arith, ground arith)
serve_accepted env stop_route body s =
    (ground (arith, append-nil s.calls), ground arith, ground arith, ground arith)
serve_accepted env power_route body s =
    (ground (arith, append-nil s.calls), ground arith, ground arith, ground arith)
serve_accepted env exec_route body s =
    (ground (arith, append-nil s.calls), ground arith, ground arith, ground arith)

-- A request with its route's method makes the one call on the machine that belongs to the route, if
-- any; it changes the power save mode exactly if the route is that of the mode and the body can be
-- read; and it is answered with an error exactly if the call failed, a requested stop was not
-- granted, or a body that the route needs cannot be read.
pub handle_accepted :
    (env : Environment) (r : Route) (path body : Bytes) (s : Server)
    → route_of path ≡ some r
    → let (response, t) = handle env (method_of r) path body s in
      (t.calls ≡ s.calls ++ calls_of (some r))
      × (t.power_save_mode ≡ power_after r (env.power_body body) s.power_save_mode)
      × (t.info ≡ s.info)
      × (is_error response ≡ fails env r body)
unfolding handle serve_found
handle_accepted env r path body s e = rw e (serve_accepted env r body s)
