-- ===== src/Restful/Routes.antt =====
-- The handlers of `mux` and the methods that they call. The machine's answers are an argument; the
-- calls that are made on it are recorded. The stream of /exec begins where the handler's loop does.
pub mod Laws
pub mod Power
use ovm.Base.{
  String, ℕ, Bytes, bytes, same, Bool, true, false, not, if◌then◌else◌, Option, none, some, List,
  [], ◌∷◌, ◌++◌,
}
use ovm.Os.Outcome.{Error, message, Result, ok, err}

pub data Method : Type 0 where
  get_method post_method put_method other_method : Method

pub data Route : Type 0 where
  info_route state_route pause_route resume_route request_stop_route stop_route power_route
        exec_route :
      Route

pub data VmCall : Type 0 where
  pause_call resume_call request_stop_call stop_call : VmCall

-- The fields of the context that /info shows.
pub record Info : Type 0 where
  pub podman_socket_path : Bytes
  pub ssh_port : ℕ
  pub ssh_user : Bytes
  pub ssh_public_key_path : Bytes
  pub ssh_private_key_path : Bytes
  pub ssh_public_key : Bytes
  pub ssh_private_key : Bytes

pub record VmInfo : Type 0 where
  pub state : Bytes
  pub can_start : Bool
  pub can_request_stop : Bool
  pub can_stop : Bool
  pub can_pause : Bool
  pub can_resume : Bool

-- What the machine answers to a call, and encoding/json for the two bodies; `none` is its error.
pub record Environment : Type 0 where
  pub vm_info : VmInfo
  pub pause_answer : Result (Unit {0})
  pub resume_answer : Result (Unit {0})
  pub request_stop_answer : Result Bool
  pub stop_answer : Result (Unit {0})
  pub power_body : Bytes → Option Bool
  pub exec_body : Bytes → Option Bytes

pub data Response : Type 0 where
  http_error : ℕ → String → Response
  vm_failure : Error → Response  -- status 500 with the error's text
  not_found : Response
  done : Response  -- status 200 with no body
  info_body : Info → Response
  state_body : VmInfo → Response
  stream : Bytes → Response

pub record Server : Type 0 where
  pub info : Info
  pub power_save_mode : Bool
  pub calls : List VmCall

-- The patterns of the multiplexer have no slash at the end, so they match whole paths.
routes : List (Bytes × Route)
routes =
    (bytes "/info", info_route)
    ∷ (bytes "/state", state_route)
    ∷ (bytes "/pause", pause_route)
    ∷ (bytes "/resume", resume_route)
    ∷ (bytes "/request-stop", request_stop_route)
    ∷ (bytes "/stop", stop_route)
    ∷ (bytes "/power-save-mode", power_route)
    ∷ (bytes "/exec", exec_route)
    ∷ []

find_route : Bytes → List (Bytes × Route) → Option Route
find_route p [] = none
find_route p ((q, r) ∷ more) = let rest = find_route p more in if same q p then some r else rest

unfoldable pub route_of : Bytes → Option Route
unfolding routes find_route
route_of p = find_route p routes

abbrev bad_request : ℕ
bad_request = 400

call_vm : VmCall → Server → Server
call_vm c s = record s { calls = s.calls ++ (c ∷ []) }

reply : Result (Unit {0}) → Response
reply (ok _) = done
reply (err e) = vm_failure e

-- `requestStop`: a machine that refuses without an error is one too.
accepted : Result Bool → Result (Unit {0})
accepted (ok true) = ok tt
accepted (ok false) = err (message "request requestStop VM failed, ok is false")
accepted (err e) = err e

set_power : Option Bool → Server → Response × Server
set_power none s = (http_error bad_request "failed to decode request body", s)
set_power (some enable) s = (done, record s { power_save_mode = enable })

start_exec : Option Bytes → Server → Response × Server
start_exec none s = (http_error bad_request "failed to decode request body", s)
start_exec (some command) s = (stream command, s)

serve : Environment → Route → Method → Bytes → Server → Response × Server
unfolding call_vm reply accepted set_power start_exec
serve env info_route get_method body s = (info_body s.info, s)
serve env state_route get_method body s = (state_body env.vm_info, s)
serve env pause_route post_method body s = (reply env.pause_answer, call_vm pause_call s)
serve env resume_route post_method body s = (reply env.resume_answer, call_vm resume_call s)
serve env request_stop_route post_method body s =
    (reply (accepted env.request_stop_answer), call_vm request_stop_call s)
serve env stop_route post_method body s = (reply env.stop_answer, call_vm stop_call s)
serve env power_route put_method body s = set_power (env.power_body body) s
serve env exec_route post_method body s = start_exec (env.exec_body body) s
serve env info_route _ body s = (http_error bad_request "get only", s)
serve env state_route _ body s = (http_error bad_request "get only", s)
serve env power_route _ body s = (http_error bad_request "put only", s)
serve env _ _ body s = (http_error bad_request "post only", s)

serve_found : Environment → Option Route → Method → Bytes → Server → Response × Server
unfolding serve
serve_found env none method body s = (not_found, s)
serve_found env (some r) method body s = serve env r method body s

-- A request, from its path to the answer.
unfoldable pub handle : Environment → Method → Bytes → Bytes → Server → Response × Server
unfolding route_of serve_found
handle env method path body s = serve_found env (route_of path) method body s
