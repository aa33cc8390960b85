-- ===== src/Tests/Server.antt =====
-- A request to a server.
use ovm.Base.{bytes, bytes_dec, true, false, none, some, [], ◌∷◌, ◌≡◌, refl}
use ovm.Os.Outcome.{errno, ok, err}
use ovm.Restful.Routes.{post_method, pause_route, pause_call, Environment, Server, route_of, handle}
use ovm.Restful.Routes.Laws.{fails, is_error, handle_accepted}

abbrev pub environment : Environment
environment = record {
  vm_info = record {
    state = bytes "running";
    can_start = false;
    can_request_stop = true;
    can_stop = true;
    can_pause = true;
    can_resume = false;
  };
  pause_answer = err errno;
  resume_answer = ok tt;
  request_stop_answer = ok false;
  stop_answer = ok tt;
  power_body = λ b. none;
  exec_body = λ b. some b;
}

abbrev pub server : Server
server = record {
  info = record {
    podman_socket_path = bytes "/s/podman";
    ssh_port = 2233;
    ssh_user = bytes "root";
    ssh_public_key_path = bytes "/k.pub";
    ssh_private_key_path = bytes "/k";
    ssh_public_key = bytes "public";
    ssh_private_key = bytes "private";
  };
  power_save_mode = false;
  calls = [];
}

pause_lem : route_of (bytes "/pause") ≡ some pause_route
unfolding route_of bytes_dec
pause_lem = refl

handle_accepted_example :
    let (response, t) = handle environment post_method (bytes "/pause") [] server in
    (t.calls ≡ pause_call ∷ [])
    × (t.power_save_mode ≡ false)
    × (t.info ≡ server.info)
    × (is_error response ≡ true)
unfolding fails
handle_accepted_example =
    handle_accepted environment pause_route (bytes "/pause") [] server pause_lem
