-- ===== src/Backup/Holder/Opens.antt =====
-- The loop of `RestoreContext` that opens the holders: where it succeeds, there is one for each named
-- schema, and each holds what its schema's image decodes to.
use pgmem.Backup.Holder.Opened.{open_restored_schema-Opened}
use mathlib.Core.Path.{subst}
use pgmem.Backup.Holder.{
  RestoredSchemaHolder, open_restored_schema, open_holders, held_first, held_with, restore_uri,
  image_of,
}
use pgmem.Backup.Holder.Uris.{restore_uri_injective}
use pgmem.Backup.Program.{Process, or_wrap}
use pgmem.Backup.Program.Laws.{or_wrap-eq-ok}
use pgmem.Backup.Create.{in_schema}
use pgmem.Backup.Storage.{Storage}
use pgmem.Backup.Documented.{Documented}
use pgmem.Errors.{Fallible, ok, err, GoError}
use pgmem.Common.{
  refl, ap, sym, ◌∙◌, ℕ, ◌+◌, ◌<◌, ◌≤◌, ◌^◌, ◌≡◌, Option, none, some, List, [], ◌∷◌, true, false,
  arith, All, length, Bool-cases, inl, inr,
}
use pgmem.Common.Dict.{Dict}
use pgmem.Common.Text.{Text, codes, text_eq}

-- The answer of `held_first` without an error: there is a first holder, and the others.
held_first_ok :
    {W : Type 0} (storage : Storage W)
    (rest : Process W → Process W × List RestoredSchemaHolder × Option GoError)
    (r : Process W × Fallible RestoredSchemaHolder) (q : Process W)
    (holders : List RestoredSchemaHolder)
    → held_first storage rest r ≡ (q, holders, none)
    → (p : Process W) × (holder : RestoredSchemaHolder) × (later : List RestoredSchemaHolder) × (r
        ≡ (p, ok holder))
      × (rest p ≡ (q, later, none))
      × (holders ≡ holder ∷ later)
unfolding held_first held_with
held_first_ok storage rest (p, ok holder) q holders h = (p, holder, (rest p).1, refl, cc, cc)
held_first_ok storage rest (p, err e) q holders h = cc

module _ {W : Type 0} (storage : Storage W) (images : Dict Text Text) where
  opened_first : Text → Process W → Process W × Fallible RestoredSchemaHolder
  opened_first name =
      or_wrap (open_restored_schema storage name (image_of name images))
        (in_schema (codes "pgmem: prepare schema ") name (codes " for restore: "))

  open_holders-public :
      (name : Text) (names : List Text) (p : Process W)
      → text_eq name (codes "public") ≡ true
      → open_holders storage images (name ∷ names) p ≡ open_holders storage images names p
  unfolding open_holders
  open_holders-public name names p e = rw (e, open_holders) refl

  open_holders-first :
      (name : Text) (names : List Text) (p : Process W)
      → text_eq name (codes "public") ≡ false
      → open_holders storage images (name ∷ names) p
        ≡ held_first storage (open_holders storage images names) (opened_first name p)
  unfolding opened_first open_holders held_first
  open_holders-first name names p e = rw (e, open_holders) refl

  open_holders-named :
      (name : Text) (names : List Text) (p q : Process W) (holders : List RestoredSchemaHolder)
      → text_eq name (codes "public") ≡ false
      → open_holders storage images (name ∷ names) p ≡ (q, holders, none)
      → (p' : Process W) × (holder : RestoredSchemaHolder) × (later : List RestoredSchemaHolder)
        × (open_restored_schema storage name (image_of name images) p ≡ (p', ok holder))
        × (open_holders storage images names p' ≡ (q, later, none))
        × (holders ≡ holder ∷ later)
  unfolding opened_first
  open_holders-named name names p q holders e h =
      let (p', holder, later, first, others, here) =
        held_first_ok storage (open_holders storage images names) (opened_first name p) q holders
          (sym (open_holders-first name names p e) ∙ h) in
      (p', holder, later, or_wrap-eq-ok _ _ p first, others, here)

-- The databases that the holders' URIs stand for are those saved for their names.
abbrev pub AllHeld :
    {W D : Type 0} → (W → Text → Option D) → (Text → D) → W → List RestoredSchemaHolder → Type 0
AllHeld shared saved w holders =
    All (λ holder. shared w holder.uri ≡ some (saved holder.name)) holders

module _ {W D : Type 0} (storage : Storage W) (decode : Text → D) (live : W → Text → D)
    (shared : W → Text → Option D) (files : W → Text → Option Text)
    (laws : Documented storage decode live shared files) (saved : Text → D)
    (images : Dict Text Text) where
  -- What holds of every holder's name holds of every named schema.
  pub open_holders-names :
      (P : Text → Type 0) (names : List Text) (p q : Process W)
      (holders : List RestoredSchemaHolder)
      → open_holders storage images names p ≡ (q, holders, none)
      → p.sequence + length names < 2 ^ 64
      → All (λ holder. P holder.name) holders
      → All (λ name. text_eq name (codes "public") ≡ false → P name) names
  open_holders-names P [] p q holders h bound all = tt
  open_holders-names P (name ∷ names) p q holders h bound all =
      elim (Bool-cases (text_eq name (codes "public"))) [
        | inl e ↦ (
          λ n. cc,
          open_holders-names P names p q holders
              (sym (open_holders-public storage images name names p e) ∙ h) (omega arith) all,
        )
        | inr e ↦
            let (p', holder, later, first, others, here) =
              open_holders-named storage images name names p q holders e h in
            let opened =
              open_restored_schema-Opened storage decode live shared files laws name
                (image_of name images) p p' holder first (omega arith) in
            let (mine, rest) = subst (All (λ (h : RestoredSchemaHolder). P h.name)) here all in
            (
              λ n. subst P opened.named mine,
              open_holders-names P names p' q later others (omega (arith, opened.next)) rest,
            )
      ]

  pub open_holders-AllHeld :
      (names : List Text) (p q : Process W) (holders : List RestoredSchemaHolder)
      → open_holders storage images names p ≡ (q, holders, none)
      → All
          (λ name.
            text_eq name (codes "public") ≡ false → decode (image_of name images) ≡ saved name)
          names
      → p.sequence + length names < 2 ^ 64
      → AllHeld shared saved q.world holders
        × ((i : ℕ)
            → i ≤ p.sequence
            → shared q.world (restore_uri i) ≡ shared p.world (restore_uri i))
  unfolding open_holders
  open_holders-AllHeld [] p q holders h good bound = (
    subst (AllHeld shared saved q.world) (ap (λ r. r.1) h) tt,
    λ i le. ap (λ r. shared r.0.world (restore_uri i)) (sym h),
  )
  open_holders-AllHeld (name ∷ names) p q holders h (right, good) bound =
      elim (Bool-cases (text_eq name (codes "public"))) [
        | inl e ↦
            open_holders-AllHeld names p q holders
              (sym (open_holders-public storage images name names p e) ∙ h) good (omega arith)
        | inr e ↦
            let (p', holder, later, first, others, here) =
              open_holders-named storage images name names p q holders e h in
            let opened =
              open_restored_schema-Opened storage decode live shared files laws name
                (image_of name images) p p' holder first (omega arith) in
            let (held, kept) =
              open_holders-AllHeld names p' q later others good (omega (arith, opened.next)) in
            (
              subst (AllHeld shared saved q.world) (sym here) (
                ap (shared q.world) opened.at_uri
                    ∙ kept (p.sequence + 1) (omega (arith, opened.next))
                    ∙ opened.fills.filled
                    ∙ ap some (right e ∙ ap saved (sym opened.named)),
                held,
              ),
              λ i le.
                  kept i (omega (arith, opened.next))
                  ∙ opened.fills.others (restore_uri i)
                      λ same. omega (arith, restore_uri_injective i (p.sequence + 1) same),
            )
      ]
