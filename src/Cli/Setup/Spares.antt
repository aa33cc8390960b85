-- ===== src/Cli/Setup/Spares.antt =====
-- What the set up leaves alone outside of the folder of the images.
use mathlib.Core.Path.{subst}
use ovm.Os.Spares.{Spared, Spared-trans}
use ovm.Utils.Files.Frame.{absolute_inv}
use ovm.Os.Outcome.{bind_steps, pure_inv}
use ovm.Utils.Port.{find_usable_port}
use ovm.Utils.Files.{absolute}
use ovm.Base.{ℕ, String, Bytes, Bool, false, Option, none, some, ◌≡◌, refl, sym, ◌∙◌, ap}
use ovm.Os.Outcome.{Result, ok, err, Action, bind_steps, pure_inv}
use ovm.Os.Disk.{Disk}
use ovm.Os.Calls.{mkdir_all, is_within}
use ovm.Os.Calls.Folders.{mkdir_all-Spares}
use ovm.Os.Spares.{Spares, bind-Spares, looking-Spares, remove_all-Spares}
use ovm.Text.FilePath.{abs}
use ovm.Utils.Files.Frame.{absolute-Spares}
use ovm.Cli.Keys.Spares.{IsNoKey}
use ovm.Cli.Flags.{Flags}
use ovm.Cli.Sockets.{setup_sockets}
use ovm.Cli.Setup.{
  Program, Basics, lock_prefix_path, asked, shares, setup_basic, setup_log_path, setup_ssh_port,
  port_of, in_group, both_results, pre_setup,
}

-- The path is outside of the folder of the sockets and is no file of the keys.
pub record Elsewhere (cwd : Option Bytes) (f : Flags) (q : Bytes) : Type 0 where
  pub no_socket : (p : Bytes) → abs cwd f.socket_path ≡ some p → is_within p q ≡ false
  pub no_key : (p : Bytes) → abs cwd f.ssh_key_path ≡ some p → IsNoKey p f.name q

both_results-disk :
    {A B : Type 0} (r : Result A) (t : Result B) (d : Disk) → (both_results r t d).1 ≡ d
unfolding both_results
both_results-disk (ok a) (ok b) d = refl
both_results-disk (ok a) (err e) d = refl
both_results-disk (err e) t d = refl

-- Two tasks run, whatever their results are.
pub in_group-disk :
    {A B : Type 0} (m : Action Disk A) (n : Action Disk B) (d : Disk)
    → (in_group m n d).1 ≡ (n (m d).1).1
unfolding in_group
in_group-disk m n d = both_results-disk (m d).0 (n (m d).1).0 (n (m d).1).1

module _ (q : Bytes) where
  asked-Spares : (text : String) (o : Option Bytes) → Spares q (asked text o)
  unfolding asked
  asked-Spares text none = looking-Spares q _ (λ d. refl)
  asked-Spares text (some p) = looking-Spares q _ (λ d. refl)

  setup_basic-Spares : (sys : Program) (f : Flags) → Spares q (setup_basic sys f)
  unfolding setup_basic shares
  setup_basic-Spares sys f = bind-Spares q _ _ (mkdir_all-Spares q lock_prefix_path) λ _.
      bind-Spares q _ _ (asked-Spares _ sys.executable) λ p.
        bind-Spares q _ _ (asked-Spares _ (sys.eval_symlinks p)) λ r.
          bind-Spares q _ _ (looking-Spares q (shares f.extend_share_dir) (λ d. refl))
            λ extra. looking-Spares q _ (λ d. refl)

  setup_log_path-Spares : (cwd : Option Bytes) (f : Flags) → Spares q (setup_log_path cwd f)
  unfolding setup_log_path
  setup_log_path-Spares cwd f =
      absolute-Spares q cwd f.log_path _
        λ p e. bind-Spares q _ _ (mkdir_all-Spares q p) λ _. looking-Spares q _ (λ d. refl)

  pub setup_sockets-Spares :
      (cwd : Option Bytes) (f : Flags)
      → Elsewhere cwd f q
      → Spares q (setup_sockets cwd f.socket_path f.name)
  unfolding setup_sockets
  setup_sockets-Spares cwd f h = absolute-Spares q cwd f.socket_path _ λ p e.
      bind-Spares q _ _ (remove_all-Spares q p (h.no_socket p e))
        λ _. bind-Spares q _ _ (mkdir_all-Spares q p) λ _. looking-Spares q _ (λ d. refl)

  in_group-Spares :
      {A B : Type 0} (m : Action Disk A) (n : Action Disk B)
      → Spares q m
      → Spares q n
      → Spares q (in_group m n)
  unfolding Spares
  in_group-Spares m n h k d =
      subst (Spared q d) (sym (in_group-disk m n d)) (Spared-trans q d (m d).1 _ (h d) (k (m d).1))

  pub pre_setup-Spares :
      (sys : Program) (cwd : Option Bytes) (f : Flags) → Spares q (pre_setup sys cwd f)
  unfolding pre_setup
  pre_setup-Spares sys cwd f =
      in_group-Spares (setup_basic sys f) (setup_log_path cwd f) (setup_basic-Spares sys f)
        (setup_log_path-Spares cwd f)

  port_of-Spares : (o : Option ℕ) → Spares q (port_of o)
  unfolding port_of
  port_of-Spares none = looking-Spares q _ (λ d. refl)
  port_of-Spares (some p) = looking-Spares q _ (λ d. refl)

  pub setup_ssh_port-Spares : (occupied : ℕ → Bool) → Spares q (setup_ssh_port occupied)
  unfolding setup_ssh_port
  setup_ssh_port-Spares occupied = port_of-Spares (find_usable_port occupied 2233)

-- What `setup_basic` takes from the flags, and where the logs are.
setup_basic_name :
    (sys : Program) (f : Flags) (b : Basics) (d d' : Disk)
    → setup_basic sys f d ≡ (ok b, d')
    → b.name ≡ f.name
unfolding setup_basic
setup_basic_name sys f b d d' h =
    let (_, d1, _, h1) = bind_steps (mkdir_all lock_prefix_path) _ d h in
    let (p, d2, _, h2) = bind_steps (asked "get executable path error" sys.executable) _ d1 h1 in
    let (r, d3, _, h3) = bind_steps (asked "eval symlink error" (sys.eval_symlinks p)) _ d2 h2 in
    let (extra, d4, _, h4) = bind_steps (shares f.extend_share_dir) _ d3 h3 in
    let (made, _) = pure_inv _ d4 h4 in sym (ap (λ (x : Basics). x.name) made)

setup_log_path_inv :
    (cwd : Option Bytes) (f : Flags) (p : Bytes) (d d' : Disk)
    → setup_log_path cwd f d ≡ (ok p, d')
    → abs cwd f.log_path ≡ some p
unfolding setup_log_path
setup_log_path_inv cwd f p d d' h =
    let (q, d1, e, h1) = bind_steps (absolute cwd f.log_path) _ d h in
    let (_, d2, _, h2) = bind_steps (mkdir_all q) _ d1 h1 in
    let (made, _) = pure_inv q d2 h2 in absolute_inv cwd f.log_path q d d1 e ∙ ap some made

both_results_inv :
    {A B : Type 0} (r : Result A) (t : Result B) (d d' : Disk) (a : A) (b : B)
    → both_results r t d ≡ (ok (a, b), d')
    → (r ≡ ok a) × (t ≡ ok b)
unfolding both_results
both_results_inv {A} {B} (ok x) (ok y) d d' a b h =
    let (made, _) = pure_inv (x, y) d h in
    (ap (λ (c : A × B). ok c.0) made, ap (λ (c : A × B). ok c.1) made)
both_results_inv (ok x) (err e) d d' a b h = cc
both_results_inv (err e) t d d' a b h = cc

-- What `PreSetup` hands on, if it succeeds.
pub pre_setup_inv :
    (sys : Program) (cwd : Option Bytes) (f : Flags) (b : Basics) (log_path : Bytes) (d d' : Disk)
    → pre_setup sys cwd f d ≡ (ok (b, log_path), d')
    → (b.name ≡ f.name) × (abs cwd f.log_path ≡ some log_path)
unfolding pre_setup in_group
pre_setup_inv sys cwd f b log_path d d' h =
    let d1 = (setup_basic sys f d).1 in
    let d2 = (setup_log_path cwd f d1).1 in
    let (made, found) =
      both_results_inv (setup_basic sys f d).0 (setup_log_path cwd f d1).0 d2 d' b log_path h in
    (
      setup_basic_name sys f b d d1 (λ i. (made i, d1)),
      setup_log_path_inv cwd f log_path d1 d2 (λ i. (found i, d2)),
    )
