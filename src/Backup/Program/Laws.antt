-- ===== src/Backup/Program/Laws.antt =====
-- Programs that succeed: what their parts did.
use pgmem.Backup.Program.{
  Process, Program, none_is_ok, and_then, ◌>>=◌, ◌>>◌, pure, wrap_failure, or_wrap, lift, attempt,
  deferring, cleaned, on_failure, fail,
}
use pgmem.Engine.{Effect}
use pgmem.Common.{
  true, false, ◌≡◌, refl, Option, none, some, arith, nat_Key, Bool, if◌then◌else◌, false,
}
use pgmem.Common.Text.{text_Key}
use pgmem.Errors.{GoError, Fallible, ok, err}

module _ {W A : Type 0} where
  module _ {B : Type 0} where
    and_then_ok :
        (f : A → Program W B) (r : Process W × Fallible A) {q : Process W} {b : B}
        → and_then f r ≡ (q, ok b)
        → (p : Process W) × (a : A) × (r ≡ (p, ok a)) × (f a p ≡ (q, ok b))
    unfolding and_then
    and_then_ok f (p, ok a) h = (p, a, refl, h)
    and_then_ok f (p, err e) h = cc

    pub >>=-eq-ok :
        (m : Program W A) (f : A → Program W B) (p : Process W) {q : Process W} {b : B}
        → (m >>= f) p ≡ (q, ok b)
        → (p' : Process W) × (a : A) × (m p ≡ (p', ok a)) × (f a p' ≡ (q, ok b))
    unfolding ◌>>=◌
    >>=-eq-ok m f p h = and_then_ok f (m p) h

    pub >>-eq-ok :
        (m : Program W A) (k : Program W B) (p : Process W) {q : Process W} {b : B}
        → (m >> k) p ≡ (q, ok b)
        → (p' : Process W) × (a : A) × (m p ≡ (p', ok a)) × (k p' ≡ (q, ok b))
    unfolding ◌>>◌
    >>-eq-ok m k p h = and_then_ok (λ _. k) (m p) h

  wrap_failure_ok :
      (f : GoError → GoError) (r : Process W × Fallible A) {q : Process W} {a : A}
      → wrap_failure f r ≡ (q, ok a)
      → r ≡ (q, ok a)
  unfolding wrap_failure
  wrap_failure_ok f (p, ok b) h = h
  wrap_failure_ok f (p, err e) h = cc

  pub or_wrap-eq-ok :
      (m : Program W A) (f : GoError → GoError) (p : Process W) {q : Process W} {a : A}
      → or_wrap m f p ≡ (q, ok a)
      → m p ≡ (q, ok a)
  unfolding or_wrap
  or_wrap-eq-ok m f p h = wrap_failure_ok f (m p) h

  cleaned_ok :
      (cleanup : Process W → Process W) (r : Process W × Fallible A) {q : Process W} {a : A}
      → cleaned cleanup r ≡ (q, ok a)
      → r ≡ (q, ok a)
  unfolding cleaned
  cleaned_ok cleanup (p, ok b) h = h
  cleaned_ok cleanup (p, err e) h = cc

  pub on_failure-eq-ok :
      (cleanup : Process W → Process W) (m : Program W A) (p : Process W) {q : Process W} {a : A}
      → on_failure cleanup m p ≡ (q, ok a)
      → m p ≡ (q, ok a)
  unfolding on_failure
  on_failure-eq-ok cleanup m p h = cleaned_ok cleanup (m p) h

  pub deferring-eq-ok :
      (cleanup : Process W → Process W) (m : Program W A) (p : Process W) {q : Process W} {a : A}
      → deferring cleanup m p ≡ (q, ok a)
      → (p' : Process W) × (m p ≡ (p', ok a)) × (q ≡ cleanup p')
  unfolding deferring
  deferring-eq-ok cleanup m p h = ((m p).0, cc, cc)

  pub lift-eq-ok :
      (op : Effect W A) (p : Process W) {q : Process W} {a : A}
      → lift op p ≡ (q, ok a)
      → (op p.world ≡ (q.world, ok a)) × (q.sequence ≡ p.sequence)
  unfolding lift
  lift-eq-ok op p h = (ground arith, ground arith)

  pub pure-eq-ok :
      (a : A) (p : Process W) {q : Process W} {b : A} → pure a p ≡ (q, ok b) → (p ≡ q) × (a ≡ b)
  unfolding pure
  pure-eq-ok a p h = (ground arith, ground arith)

pub guarded-eq-ok :
    {W A : Type 0} (refused : Bool) (e : GoError) (m : Program W A) (p : Process W) {q : Process W}
    {a : A}
    → (if refused then fail e else m) p ≡ (q, ok a)
    → (refused ≡ false) × (m p ≡ (q, ok a))
unfolding fail
guarded-eq-ok true e m p h = cc
guarded-eq-ok false e m p h = (refl, h)

pub unless-eq-ok :
    {W A : Type 0} (accepted : Bool) (e : GoError) (m : Program W A) (p : Process W) {q : Process W}
    {a : A}
    → (if accepted then m else fail e) p ≡ (q, ok a)
    → (accepted ≡ true) × (m p ≡ (q, ok a))
unfolding fail
unless-eq-ok true e m p h = (refl, h)
unless-eq-ok false e m p h = cc

pub none_is_ok_lem : (o : Option GoError) → none_is_ok o ≡ ok tt → o ≡ none
none_is_ok_lem none h = refl
none_is_ok_lem (some e) h = cc

pub attempt-eq-ok :
    {W : Type 0} (op : W → W × Option GoError) (p : Process W) {q : Process W} {u : Unit {0}}
    → attempt op p ≡ (q, ok u)
    → (op p.world ≡ (q.world, none)) × (q.sequence ≡ p.sequence)
unfolding attempt
attempt-eq-ok op p h = (ground (arith, none_is_ok_lem (op p.world).1), ground arith)
