-- ===== src/Cli/Keys/Spares.antt =====
-- What the set up of the keys leaves alone.
use ovm.Base.{Bytes, bytes, Bool, true, false, Option, some, ◌++◌, ◌≡◌, ◌≢◌, refl, if◌then◌else◌}
use ovm.Os.Outcome.{Result, ok, err, pure}
use ovm.Os.Disk.{Disk}
use ovm.Os.Calls.{is_within}
use ovm.Os.Calls.Folders.{mkdir_all-Spares}
use ovm.Os.Spares.{
  Spares, Spared, Spared-refl, choice-Spared, Spares-apply, bind-Spares, looking-Spares,
  attempt-Spares, remove_all-Spares,
}
use ovm.Text.FilePath.{path_join, abs}
use ovm.Utils.Files.Frame.{absolute-Spares, stat_node-Spares}
use ovm.Cli.Keys.{Keygen, finished, generate_ssh_key, renew, ensure_keys, setup_keys, some_missing}
use ovm.Cli.Keys.Laws.{read_keys-same}

-- ssh-keygen writes the file that it is given and the one with `.pub` behind it.
pub record WritesOwn (gen : Keygen) : Type 0 where
  pub own : (p q : Bytes) → q ≢ p → q ≢ p ++ bytes ".pub" → Spares q (gen.run p)

-- The path is no file of the keys.
pub record IsNoKey (p name q : Bytes) : Type 0 where
  pub no_private : is_within (path_join p name) q ≡ false
  pub no_public : is_within (path_join p (name ++ bytes ".pub")) q ≡ false
  pub not_private : q ≢ path_join p name
  pub not_written : q ≢ path_join p name ++ bytes ".pub"

finished-disk : (stderr : Option Bytes) (r : Result (Unit {0}) × Disk) → (finished stderr r).1 ≡ r.1
unfolding finished
finished-disk stderr (ok _, d) = refl
finished-disk stderr (err e, d) = refl

module _ (gen : Keygen) (writes : WritesOwn gen) (p name q : Bytes) (h : IsNoKey p name q) where
  run-Spared : (d : Disk) → Spared q d (finished gen.stderr (gen.run (path_join p name) d)).1
  run-Spared d = rw (finished-disk gen.stderr (gen.run (path_join p name) d)) (
      Spares-apply q (gen.run (path_join p name))
        (writes.own (path_join p name) q h.not_private h.not_written) d)

  generate_ssh_key-Spares : Spares q (generate_ssh_key gen p name)
  unfolding generate_ssh_key Spares
  generate_ssh_key-Spares d =
      choice-Spared q gen.pipe_opens _ _ d
        (choice-Spared q gen.starts _ _ d (run-Spared d) (Spared-refl q d)) (Spared-refl q d)

  renew-Spares : Spares q (renew gen p name)
  unfolding renew
  renew-Spares = bind-Spares q _ _ (attempt-Spares q _ (remove_all-Spares q _ h.no_private)) λ _.
      bind-Spares q _ _ (attempt-Spares q _ (remove_all-Spares q _ h.no_public))
        λ _. generate_ssh_key-Spares

  renew_if-Spares : (b : Bool) → Spares q (if b then renew gen p name else pure tt)
  renew_if-Spares true = renew-Spares
  renew_if-Spares false = looking-Spares q _ (λ d. refl)

  ensure_keys-Spares : Spares q (ensure_keys gen p name)
  unfolding ensure_keys
  ensure_keys-Spares =
      bind-Spares q _ _ (attempt-Spares q _ (stat_node-Spares q (path_join p name))) λ a.
        bind-Spares q _ _
          (attempt-Spares q _ (stat_node-Spares q (path_join p (name ++ bytes ".pub"))))
          λ b. renew_if-Spares (some_missing a b)

pub setup_keys-Spares :
    {Signer : Type 0} (parse : Bytes → Option Signer) (gen : Keygen) (cwd : Option Bytes)
    (flag name q : Bytes)
    → WritesOwn gen
    → ((p : Bytes) → abs cwd flag ≡ some p → IsNoKey p name q)
    → Spares q (setup_keys parse gen cwd flag name)
unfolding setup_keys
setup_keys-Spares parse gen cwd flag name q writes h = absolute-Spares q cwd flag _ λ p e.
    bind-Spares q _ _ (mkdir_all-Spares q p) λ _.
      bind-Spares q _ _ (ensure_keys-Spares gen writes p name q (h p e))
        λ _. looking-Spares q _ (read_keys-same parse p name)
