-- ===== src/Logger/Levels/Laws.antt =====
-- pkg/logger/logger.go: what the files of several loggers hold after calls in any order, and what a
-- crash leaves of them.
use mathlib.Core.Path.{ap₂}
use ovm.Base.{
  same_self, Bytes, false, if◌then◌else◌, ◌==◌, ℕ, Option, some, List, [], ◌∷◌, ◌++◌, ◌≡◌, ◌≢◌,
  refl, sym, ap, ◌∙◌, arith, append-nil, append_assoc,
}
use ovm.Os.Disk.{Disk, file, write_call, sync_call, write_fd, append_to}
use ovm.Logger.{Context, line, log, init}
use ovm.Logger.Slots.{slot}
use ovm.Logger.Rotation.{init-open_at, init-fault, NoFault, IsPlain, init-Rotated}
use ovm.Logger.Levels.{
  Level, info, warn, error, Store, sync, write_line, perform_at, perform, perform_all, Entry,
  line_at, lines_at, label, info_call, warn_call, error_call,
}

-- What a call keeps, and what it does to the file at `p`.
record Written (p : Bytes) (e : Entry) (b : Bytes) (s t : Store) : Type 0 where
  open_kept : t.disk.open_at ≡ s.disk.open_at
  fault_kept : t.disk.fault ≡ s.disk.fault
  grown : t.disk.entry p ≡ some (file (b ++ line_at s.disk.open_at p e))

write_line-Written :
    (p : Bytes) (e : Entry) (b : Bytes) (s : Store)
    → s.disk.fault (write_call p) ≡ false
    → s.disk.entry p ≡ some (file b)
    → Written p e b s (write_line e.logger e.time e.level e.text s)
unfolding write_line log write_fd line_at append_to
write_line-Written p e b s w h = record {
  open_kept = ground arith;
  fault_kept = ground arith;
  grown = ground (arith, append-nil b);
}

-- A sync is not seen by programs.
sync-disk : (fd : ℕ) (s : Store) → (sync fd s).disk ≡ s.disk
unfolding sync
sync-disk fd s = ground arith

perform_at-disk :
    (sprintf : Bytes → Bytes) (k : Level) (c : Context) (time text : Bytes) (s : Store)
    → (perform_at sprintf k c time text s).disk ≡ (write_line c time k text s).disk
unfolding perform_at info_call warn_call error_call
perform_at-disk sprintf info c time text s = refl
perform_at-disk sprintf warn c time text s = sync-disk c.file (write_line c time warn text s)
perform_at-disk sprintf error c time text s = sync-disk c.file (write_line c time error text s)

-- Of the store, `Written` looks at the disk only.
perform-Written :
    (sprintf : Bytes → Bytes) (p : Bytes) (e : Entry) (b : Bytes) (s : Store)
    → s.disk.fault (write_call p) ≡ false
    → s.disk.entry p ≡ some (file b)
    → Written p e b s (perform sprintf e s)
unfolding perform
perform-Written sprintf p e b s w h =
    let k = write_line-Written p e b s w h in
    let same_disk = perform_at-disk sprintf e.level e.logger e.time e.text s in
    record {
      open_kept = ap (λ (d : Disk). d.open_at) same_disk ∙ k.open_kept;
      fault_kept = ap (λ (d : Disk). d.fault) same_disk ∙ k.fault_kept;
      grown = ap (λ (d : Disk). d.entry p) same_disk ∙ k.grown;
    }

-- Calls of any loggers, in any order, add to a log file the lines of the loggers that have it open,
-- whole and in the order of the calls, if no write to the file fails.
pub perform_all-lines_at :
    (sprintf : Bytes → Bytes) (p : Bytes) (es : List Entry) (b : Bytes) (s : Store)
    → s.disk.fault (write_call p) ≡ false
    → s.disk.entry p ≡ some (file b)
    → (perform_all sprintf es s).disk.entry p ≡ some (file (b ++ lines_at s.disk.open_at p es))
unfolding perform_all lines_at
perform_all-lines_at sprintf p [] b s w h = ground (arith, append-nil b)
perform_all-lines_at sprintf p (e ∷ es) b s w h =
    let t = perform sprintf e s in
    let k = perform-Written sprintf p e b s w h in
    perform_all-lines_at sprintf p es (b ++ line_at s.disk.open_at p e) t
      ((λ i. k.fault_kept i (write_call p)) ∙ w) k.grown
    ∙ (λ i. some (file ((b ++ line_at s.disk.open_at p e) ++ lines_at (k.open_kept i) p es)))
    ∙ ap (λ x. some (file x))
        (append_assoc b (line_at s.disk.open_at p e) (lines_at s.disk.open_at p es))

sync-durable :
    (p : Bytes) (fd : ℕ) (s : Store)
    → s.disk.open_at fd ≡ some p
    → s.disk.fault (sync_call p) ≡ false
    → (sync fd s).durable p ≡ s.disk.entry p
unfolding sync
sync-durable p fd s o f = ground arith

abbrev IsUrgent : Level → Type 0
IsUrgent info = ⊥
IsUrgent _ = Unit

perform_at-durable :
    (sprintf : Bytes → Bytes) (k : Level) (c : Context) (time text p : Bytes) (s : Store)
    → IsUrgent k
    → (write_line c time k text s).disk.open_at c.file ≡ some p
    → (write_line c time k text s).disk.fault (sync_call p) ≡ false
    → (perform_at sprintf k c time text s).durable p
      ≡ (perform_at sprintf k c time text s).disk.entry p
unfolding perform_at warn_call error_call
perform_at-durable sprintf info c time text p s u o f = elim u [ ]
perform_at-durable sprintf warn c time text p s u o f =
    let t = write_line c time warn text s in
    sync-durable p c.file t o f ∙ ap (λ (d : Disk). d.entry p) (sym (sync-disk c.file t))
perform_at-durable sprintf error c time text p s u o f =
    let t = write_line c time error text s in
    sync-durable p c.file t o f ∙ ap (λ (d : Disk). d.entry p) (sym (sync-disk c.file t))

perform_all-durable :
    (sprintf : Bytes → Bytes) (p : Bytes) (es : List Entry) (e : Entry) (b : Bytes) (s : Store)
    → s.disk.fault (write_call p) ≡ false
    → s.disk.fault (sync_call p) ≡ false
    → s.disk.entry p ≡ some (file b)
    → IsUrgent e.level
    → s.disk.open_at e.logger.file ≡ some p
    → (perform_all sprintf (es ++ (e ∷ [])) s).durable p
      ≡ (perform_all sprintf (es ++ (e ∷ [])) s).disk.entry p
unfolding perform_all perform
perform_all-durable sprintf p [] e b s w f h u o =
    let k = write_line-Written p e b s w h in
    perform_at-durable sprintf e.level e.logger e.time e.text p s u
      ((λ i. k.open_kept i e.logger.file) ∙ o) ((λ i. k.fault_kept i (sync_call p)) ∙ f)
perform_all-durable sprintf p (e' ∷ es) e b s w f h u o =
    let k = perform-Written sprintf p e' b s w h in
    perform_all-durable sprintf p es e (b ++ line_at s.disk.open_at p e') (perform sprintf e' s)
      ((λ i. k.fault_kept i (write_call p)) ∙ w) ((λ i. k.fault_kept i (sync_call p)) ∙ f) k.grown u
      ((λ i. k.open_kept i e.logger.file) ∙ o)

-- When the last of any calls is a `Warn` or an `Error` of a logger, and neither the writes to its
-- file nor the sync of it fails, a crash loses no line of that file: what is on the disk for good is
-- the content before the calls and all lines since.
pub urgent_lines_kept :
    (sprintf : Bytes → Bytes) (p : Bytes) (es : List Entry) (e : Entry) (b : Bytes) (s : Store)
    → s.disk.fault (write_call p) ≡ false
    → s.disk.fault (sync_call p) ≡ false
    → s.disk.entry p ≡ some (file b)
    → IsUrgent e.level
    → s.disk.open_at e.logger.file ≡ some p
    → (perform_all sprintf (es ++ (e ∷ [])) s).durable p
      ≡ some (file (b ++ lines_at s.disk.open_at p (es ++ (e ∷ []))))
urgent_lines_kept sprintf p es e b s w f h u o =
    perform_all-durable sprintf p es e b s w f h u o
    ∙ perform_all-lines_at sprintf p (es ++ (e ∷ [])) b s w h

-- The lines of the logger with a descriptor.
unfoldable pub own_lines : ℕ → List Entry → Bytes
own_lines fd [] = []
own_lines fd (e ∷ es) =
    (if e.logger.file == fd then line e.time (label e.level) e.text else []) ++ own_lines fd es

line_at-own :
    (open_at : ℕ → Option Bytes) (p : Bytes) (fd : ℕ) (e : Entry)
    → ((x : ℕ) → open_at x ≢ some p)
    → line_at (λ x. if x == fd then some p else open_at x) p e
      ≡ (if e.logger.file == fd then line e.time (label e.level) e.text else [])
unfolding line_at
line_at-own open_at p fd e h = ground (arith, h e.logger.file, same_self p)

lines_at-own_lines :
    (open_at : ℕ → Option Bytes) (p : Bytes) (fd : ℕ) (es : List Entry)
    → ((x : ℕ) → open_at x ≢ some p)
    → lines_at (λ x. if x == fd then some p else open_at x) p es ≡ own_lines fd es
unfolding lines_at own_lines
lines_at-own_lines open_at p fd [] h = refl
lines_at-own_lines open_at p fd (e ∷ es) h =
    ap₂ ◌++◌ (line_at-own open_at p fd e h) (lines_at-own_lines open_at p fd es h)

-- A logger is opened where no call fails, no log is a folder and its file is not open yet. After any
-- calls of any loggers, `name.log` holds the lines of this logger and nothing else: not those of the
-- last run, which were rotated away, and not those of another logger.
pub opened-own_lines :
    (sprintf : Bytes → Bytes) (q n : Bytes) (es : List Entry) (s : Store)
    → q ≢ []
    → NoFault s.disk
    → IsPlain q n s.disk
    → ((x : ℕ) → s.disk.open_at x ≢ some (slot q n 1))
    → (perform_all sprintf es (record s { disk = (init q n s.disk).1 })).disk.entry (slot q n 1)
      ≡ some (file (own_lines s.disk.next_fd es))
opened-own_lines sprintf q n es s m h k o =
    let p = slot q n 1 in
    perform_all-lines_at sprintf p es [] (record s { disk = (init q n s.disk).1 })
      ((λ i. init-fault q n s.disk h k i (write_call p)) ∙ h (write_call p))
      (init-Rotated q n s.disk m h k).1.first
    ∙ (λ i. some (file (lines_at (init-open_at q n s.disk h k i) p es)))
    ∙ ap (λ b. some (file b)) (lines_at-own_lines s.disk.open_at p s.disk.next_fd es o)
