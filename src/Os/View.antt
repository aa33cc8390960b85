-- ===== src/Os/View.antt =====
-- Calls that look at some paths only, and calls that leave those paths alone.
use ovm.Base.{ℕ, String, Bytes, false, ◌≡◌, ◌≢◌, refl, ◌∙◌, arith}
use ovm.Os.Outcome.{Result, ok, err, Action, wrapping, rewrap}
use ovm.Base.{same_self}
use ovm.Os.Disk.{
  Call, Disk, open_call, write_call, read_call, truncate_call, remove_call, sync_call,
}
use ovm.Os.Calls.{create, open_source, copy_content, truncate, sync, remove_all, is_within}

module _ (F : Bytes → Type 0) where
  -- Two disks that agree at the paths, and in the answers of the system.
  pub record View (d e : Disk) : Type 0 where
    pub faults : d.fault ≡ e.fault
    pub partials : d.partial ≡ e.partial
    pub entries : (q : Bytes) → F q → d.entry q ≡ e.entry q

  abbrev pub Agrees : Result (Unit {0}) × Disk → Result (Unit {0}) × Disk → Type 0
  Agrees r t = (r.0 ≡ t.0) × View r.1 t.1

  -- What the call does at the paths depends on what stands there alone.
  unfoldable pub Local : Action Disk (Unit {0}) → Type 0
  Local c = (d e : Disk) → View d e → Agrees (c d) (c e)

  unfoldable pub Quiet : Action Disk (Unit {0}) → Type 0
  Quiet c = (d : Disk) → View (c d).1 d

  pub View-refl : (d : Disk) → View d d
  View-refl d = record { faults = refl; partials = refl; entries = λ q f. refl }

  pub View-trans : (a b c : Disk) → View a b → View b c → View a c
  View-trans a b c h k = record {
    faults = h.faults ∙ k.faults;
    partials = h.partials ∙ k.partials;
    entries = λ q f. h.entries q f ∙ k.entries q f;
  }

  rewrap-Agrees :
      (text : String) (r t : Result (Unit {0}) × Disk)
      → Agrees r t
      → Agrees (rewrap text r) (rewrap text t)
  rewrap-Agrees text (ok a, d) (ok b, e) h = h
  rewrap-Agrees text (err a, d) (err b, e) (h, k) = (ground arith, k)
  rewrap-Agrees text (ok a, d) (err b, e) (h, k) = cc
  rewrap-Agrees text (err a, d) (ok b, e) (h, k) = cc

  pub wrapping-Local :
      (text : String) (c : Action Disk (Unit {0})) → Local c → Local (wrapping text c)
  unfolding Local
  wrapping-Local text c h d e v = rewrap-Agrees text (c d) (c e) (h d e v)

  rewrap-disk : (text : String) (r : Result (Unit {0}) × Disk) → (rewrap text r).1 ≡ r.1
  rewrap-disk text (ok a, d) = refl
  rewrap-disk text (err e, d) = refl

  pub wrapping-Quiet :
      (text : String) (c : Action Disk (Unit {0})) → Quiet c → Quiet (wrapping text c)
  unfolding Quiet
  wrapping-Quiet text c h d = rw (rewrap-disk text (c d)) (h d)

  same_answer : (d e : Disk) → View d e → (c : Call) → d.fault c ≡ e.fault c
  same_answer d e v c = λ i. v.faults i c

  pub remove_all-Local : (p : Bytes) → Local (remove_all p)
  unfolding Local remove_all
  remove_all-Local p d e v =
      let f = same_answer d e v (remove_call p) in
      (
        ground (arith, f),
        record {
          faults = ground (arith, v.faults);
          partials = ground (arith, v.partials);
          entries = λ q w. ground (arith, f, v.entries q w);
        },
      )

  pub sync-Local : (p : Bytes) → Local (sync p)
  unfolding Local sync
  sync-Local p d e v =
      let f = same_answer d e v (sync_call p) in
      (
        ground (arith, f),
        record {
          faults = ground (arith, v.faults);
          partials = ground (arith, v.partials);
          entries = λ q w. ground (arith, f, v.entries q w);
        },
      )

  pub truncate-Local : (p : Bytes) (n : ℕ) → Local (truncate p n)
  unfolding Local truncate
  truncate-Local p n d e v =
      let f = same_answer d e v (truncate_call p) in
      (
        ground (arith, f),
        record {
          faults = ground (arith, v.faults);
          partials = ground (arith, v.partials);
          entries = λ q w. ground (arith, f, v.entries q w);
        },
      )

  module _ (p : Bytes) (own : F p) where
    pub create-Local : Local (create p)
    unfolding Local create
    create-Local d e v =
        let f = same_answer d e v (open_call p) in
        (
          ground (arith, f, v.entries p own),
          record {
            faults = ground (arith, v.faults);
            partials = ground (arith, v.partials);
            entries = λ q w. ground (arith, f, v.entries p own, v.entries q w);
          },
        )

    pub open_source-Local : Local (open_source p)
    unfolding Local open_source
    open_source-Local d e v =
        let f = same_answer d e v (read_call p) in
        (
          ground (arith, f, v.entries p own),
          record {
            faults = ground (arith, v.faults);
            partials = ground (arith, v.partials);
            entries = λ q w. ground (arith, f, v.entries p own, v.entries q w);
          },
        )

    pub copy_content-Local : (dst : Bytes) → Local (copy_content p dst)
    unfolding Local copy_content
    copy_content-Local dst d e v =
        let f = same_answer d e v (write_call dst) in
        let k : d.partial dst ≡ e.partial dst = λ i. v.partials i dst in
        (
          ground (arith, f, v.entries p own),
          record {
            faults = ground (arith, v.faults);
            partials = ground (arith, v.partials);
            entries = λ q w. ground (arith, f, k, v.entries p own, v.entries q w);
          },
        )

  -- Calls that write at a path which is not looked at.
  module _ (p : Bytes) (away : (q : Bytes) → F q → is_within p q ≡ false) where
    pub remove_all-Quiet : Quiet (remove_all p)
    unfolding Quiet remove_all
    remove_all-Quiet d = record {
      faults = ground arith;
      partials = ground arith;
      entries = λ q w. ground (arith, away q w);
    }

    not_here : (q : Bytes) → F q → q ≢ p
    not_here q w e = ground (arith, away q w, same_self q)

    pub create-Quiet : Quiet (create p)
    unfolding Quiet create
    create-Quiet d = record {
      faults = ground arith;
      partials = ground arith;
      entries = λ q w. ground (arith, not_here q w);
    }

    pub copy_content-Quiet : (src : Bytes) → Quiet (copy_content src p)
    unfolding Quiet copy_content
    copy_content-Quiet src d = record {
      faults = ground arith;
      partials = ground arith;
      entries = λ q w. ground (arith, not_here q w);
    }

    pub truncate-Quiet : (n : ℕ) → Quiet (truncate p n)
    unfolding Quiet truncate
    truncate-Quiet n d = record {
      faults = ground arith;
      partials = ground arith;
      entries = λ q w. ground (arith, not_here q w);
    }

  pub looking-Quiet : (c : Action Disk (Unit {0})) → ((d : Disk) → (c d).1 ≡ d) → Quiet c
  unfolding Quiet
  looking-Quiet c h d = rw (h d) (View-refl d)
