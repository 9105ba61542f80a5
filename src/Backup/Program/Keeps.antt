-- ===== src/Backup/Program/Keeps.antt =====
-- Programs that leave a part of the world as it is, whether they fail or succeed.
use pgmem.Backup.Program.{
  Process, Program, and_then, ◌>>=◌, ◌>>◌, pure, fail, wrap_failure, or_wrap, lift, attempt,
  discard, deferring, cleaned, on_failure,
}
use pgmem.Engine.{Effect}
use pgmem.Common.{ℕ, ◌≡◌, refl, ap, sym, ◌∙◌, Option, nat_Key}
use pgmem.Common.Text.{text_Key}
use pgmem.Errors.{GoError, Fallible, ok, err}

pub record Keeps {W V A : Type 0} (view : W → V) (m : Program W A) : Type 0 where
  pub kept : (p : Process W) → view (m p).0.world ≡ view p.world

-- The same of a clean-up.
pub record Spares {W V : Type 0} (view : W → V) (cleanup : Process W → Process W) : Type 0 where
  pub spared : (p : Process W) → view (cleanup p).world ≡ view p.world

wrap_failure-world :
    {W A : Type 0} (f : GoError → GoError) (r : Process W × Fallible A) → (wrap_failure f r).0 ≡ r.0
unfolding wrap_failure
wrap_failure-world f (p, ok a) = refl
wrap_failure-world f (p, err e) = refl

module _ {W V : Type 0} {view : W → V} where
  pub discard-Spares :
      (op : W → W × Option GoError) → ((w : W) → view (op w).0 ≡ view w) → Spares view (discard op)
  unfolding discard
  discard-Spares op h = record { spared = λ p. h p.world }

  pub attempt-Keeps :
      (op : W → W × Option GoError) → ((w : W) → view (op w).0 ≡ view w) → Keeps view (attempt op)
  unfolding attempt
  attempt-Keeps op h = record { kept = λ p. h p.world }

  module _ {A : Type 0} where
    pub Keeps-at :
        {m : Program W A} {p q : Process W} {r : Fallible A}
        → Keeps view m
        → m p ≡ (q, r)
        → view q.world ≡ view p.world
    Keeps-at {p} k h = ap (λ s. view s.0.world) (sym h) ∙ k.kept p

    pub pure-Keeps : (a : A) → Keeps view (pure a)
    unfolding pure
    pure-Keeps a = record { kept = λ p. refl }

    pub fail-Keeps : (e : GoError) → Keeps view (fail {A = A} e)
    unfolding fail
    fail-Keeps e = record { kept = λ p. refl }

    pub lift-Keeps : (op : Effect W A) → ((w : W) → view (op w).0 ≡ view w) → Keeps view (lift op)
    unfolding lift
    lift-Keeps op h = record { kept = λ p. h p.world }

    pub or_wrap-Keeps :
        (m : Program W A) (f : GoError → GoError) → Keeps view m → Keeps view (or_wrap m f)
    unfolding or_wrap
    or_wrap-Keeps m f k = record {
      kept = λ p. ap (λ q. view q.world) (wrap_failure-world f (m p)) ∙ k.kept p;
    }

    pub deferring-Keeps :
        {m : Program W A} {cleanup : Process W → Process W}
        → Spares view cleanup
        → Keeps view m
        → Keeps view (deferring cleanup m)
    unfolding deferring
    deferring-Keeps {m} s k = record { kept = λ p. s.spared (m p).0 ∙ k.kept p }

    cleaned-view :
        (cleanup : Process W → Process W) (r : Process W × Fallible A)
        → Spares view cleanup
        → view (cleaned cleanup r).0.world ≡ view r.0.world
    unfolding cleaned
    cleaned-view cleanup (p, ok a) s = refl
    cleaned-view cleanup (p, err e) s = s.spared p

    pub on_failure-Keeps :
        {m : Program W A} {cleanup : Process W → Process W}
        → Spares view cleanup
        → Keeps view m
        → Keeps view (on_failure cleanup m)
    unfolding on_failure
    on_failure-Keeps {m} {cleanup} s k = record {
      kept = λ p. cleaned-view cleanup (m p) s ∙ k.kept p;
    }

    module _ {B : Type 0} where
      and_then-view :
          (f : A → Program W B) (r : Process W × Fallible A)
          → ((a : A) → Keeps view (f a))
          → view (and_then f r).0.world ≡ view r.0.world
      unfolding and_then
      and_then-view f (p, ok a) h = (h a).kept p
      and_then-view f (p, err e) h = refl

      pub >>=-Keeps :
          {m : Program W A} {f : A → Program W B}
          → Keeps view m
          → ((a : A) → Keeps view (f a))
          → Keeps view (m >>= f)
      unfolding ◌>>=◌
      >>=-Keeps {m} {f} k h = record { kept = λ p. and_then-view f (m p) h ∙ k.kept p }

      -- A bind whose continuation keeps the view at the answers that the operation can give.
      pub lift->>=-Keeps :
          (op : Effect W A) (f : A → Program W B)
          → ((w : W) → view (op w).0 ≡ view w)
          → ((w : W) (a : A) → (op w).1 ≡ ok a → Keeps view (f a))
          → Keeps view (lift op >>= f)
      unfolding ◌>>=◌ lift and_then
      lift->>=-Keeps op f h k = record {
        kept = λ p. go (op p.world) p.sequence (k p.world) ∙ h p.world;
      }
        where
          go :
              (r : W × Fallible A) (n : ℕ)
              → ((a : A) → r.1 ≡ ok a → Keeps view (f a))
              → view (and_then f (record { sequence = n; world = r.0 }, r.1)).0.world ≡ view r.0
          go (w, ok a) n k = (k a refl).kept (record { sequence = n; world = w })
          go (w, err e) n k = refl

      pub >>-Keeps :
          {m : Program W A} {k : Program W B} → Keeps view m → Keeps view k → Keeps view (m >> k)
      unfolding ◌>>◌
      >>-Keeps {m} {k} a b = >>=-Keeps a (λ _. b)
