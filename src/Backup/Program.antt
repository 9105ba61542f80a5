-- ===== src/Backup/Program.antt =====
-- Go code that changes the world and the package's `restoreSequence`, and returns an error or a value.
pub mod Laws
pub mod Keeps
use pgmem.Engine.{Effect}
use pgmem.Common.{ℕ, Option, none, some, nat_Key}
use pgmem.Errors.{GoError, Fallible, ok, err}
use pgmem.Common.Text.{text_Key}

-- `restoreSequence`, and the world.
pub record Process (W : Type 0) : Type 0 where
  pub sequence : ℕ
  pub world : W

abbrev pub Program : Type 0 → Type 0 → Type 0
Program W A = Process W → Process W × Fallible A

abbrev pub none_is_ok : Option GoError → Fallible (Unit {0})
none_is_ok none = ok tt
none_is_ok (some e) = err e

module _ {W : Type 0} where
  unfoldable pub and_then :
      {A B : Type 0} → (A → Program W B) → Process W × Fallible A → Process W × Fallible B
  and_then f (p, ok a) = f a p
  and_then f (p, err e) = (p, err e)

  infixl 5 ◌>>=◌ ◌>>◌
  unfoldable pub ◌>>=◌ : {A B : Type 0} → Program W A → (A → Program W B) → Program W B
  unfolding and_then
  ◌>>=◌ m f p = and_then f (m p)

  unfoldable pub ◌>>◌ : {A B : Type 0} → Program W A → Program W B → Program W B
  unfolding ◌>>=◌
  m >> k = m >>= λ _. k

  unfoldable pub pure : {A : Type 0} → A → Program W A
  pure a p = (p, ok a)

  unfoldable pub fail : {A : Type 0} → GoError → Program W A
  fail e p = (p, err e)

  unfoldable pub wrap_failure :
      {A : Type 0} → (GoError → GoError) → Process W × Fallible A → Process W × Fallible A
  wrap_failure f (p, ok a) = (p, ok a)
  wrap_failure f (p, err e) = (p, err (f e))

  -- The error is returned in a wrapping of its own.
  unfoldable pub or_wrap : {A : Type 0} → Program W A → (GoError → GoError) → Program W A
  unfolding wrap_failure
  or_wrap m f p = wrap_failure f (m p)

  -- An operation on the world, that returns an error or a value.
  unfoldable pub lift : {A : Type 0} → Effect W A → Program W A
  lift op p = let (w, answer) = op p.world in (record p { world = w }, answer)

  -- An operation on the world that may return an error.
  unfoldable pub attempt : (W → W × Option GoError) → Program W (Unit {0})
  attempt op p = let (w, e) = op p.world in (record p { world = w }, none_is_ok e)

  -- An operation whose error is ignored.
  unfoldable pub discard : (W → W × Option GoError) → Process W → Process W
  discard op p = record p { world = (op p.world).0 }

  -- defer
  unfoldable pub deferring : {A : Type 0} → (Process W → Process W) → Program W A → Program W A
  deferring cleanup m p = let (p', answer) = m p in (cleanup p', answer)

  -- What runs where the program fails, and not where it succeeds.
  unfoldable pub cleaned :
      {A : Type 0} → (Process W → Process W) → Process W × Fallible A → Process W × Fallible A
  cleaned cleanup (p, ok a) = (p, ok a)
  cleaned cleanup (p, err e) = (cleanup p, err e)

  unfoldable pub on_failure : {A : Type 0} → (Process W → Process W) → Program W A → Program W A
  unfolding cleaned
  on_failure cleanup m p = cleaned cleanup (m p)
