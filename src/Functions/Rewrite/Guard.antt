-- ===== src/Functions/Rewrite/Guard.antt =====
-- After the rewriting, the dispatcher is called only where the rewriting put it: with the database's
-- own dispatch id and a function that is registered.
use pgmem.Common.Dict.{lookup}
use mathlib.Core.Path.{subst}
use pgmem.Tree.{
  Message, Messages, Optional, CallFlags, func_call, string_node, const_node, range_var, type_name,
  a_expr, create_stmt, constraint, other_node, absent, present,
}
use mathlib.Core.Option
use pgmem.Functions.Registry.{FunctionRegistry, has, find_overloads, is_some, or_make}
use pgmem.Functions.Rewrite.{
  rewrite_message, rewrite_messages, rewrite_optional, names_dispatcher, plain_scalar_call,
  Rewritten, ◌>>=◌, dispatcher_call, routed_to, route_call, function_name_parts, last_part,
}
use pgmem.Common.{
  ◌≡◌, inl, inr, refl, Bool, true, false, ◌&&◌, none, some, arith, if◌then◌else◌, Bool-cases,
  Option-cases, nat_Key, ◌||◌, sym, ◌∙◌,
}
use pgmem.Common.Text.{Text, text_eq, text_Key, codes, to_lower, equal_fold}
use pgmem.Common.TextLaws.{text_eq_refl}

-- What holds of the part that a rewriting returns, if it returns one.
abbrev pub Holds {ℓ κ} : {A : Type ℓ} → (A → Type κ) → Rewritten A → Type κ
Holds P none = Unit
Holds P (some (a, changed)) = P a

Holds-bind {ℓ κ μ ν} :
    {A : Type ℓ} {B : Type κ} (P : A → Type μ) (Q : B → Type ν) (m : Rewritten A)
    (f : A × Bool → Rewritten B)
    → Holds P m
    → ((r : A × Bool) → P r.0 → Holds Q (f r))
    → Holds Q (m >>= f)
unfolding ◌>>=◌
Holds-bind P Q none f h k = tt
Holds-bind P Q (some (a, c)) f h k = k (a, c) h

-- The dispatcher's name, which is in lower case.
abbrev dispatcher_name : Text
dispatcher_name = codes "__pgmem_dispatch_749c9c9e"

-- Whether the last of a call's names is the dispatcher's, in any case.
pub ends_in_dispatcher : Messages → Bool
unfolding text_eq
ends_in_dispatcher (Messages.cons (string_node s) Messages.nil) =
    text_eq (to_lower s) dispatcher_name
ends_in_dispatcher (Messages.cons (string_node s) (Messages.cons m ms)) =
    ends_in_dispatcher (Messages.cons m ms)
ends_in_dispatcher _ = false

names_dispatcher_lem : (names : Messages) → names_dispatcher names ≡ ends_in_dispatcher names
unfolding names_dispatcher ends_in_dispatcher Option.bind equal_fold function_name_parts last_part
names_dispatcher_lem Messages.nil = refl
names_dispatcher_lem (Messages.cons (string_node s) Messages.nil) = refl
names_dispatcher_lem (Messages.cons (string_node s) (Messages.cons (string_node t) ms)) =
    let later = names_dispatcher_lem (Messages.cons (string_node t) ms) in
    elim (Option-cases (function_name_parts ms)) [
      | inl e ↦ ground (arith, later, e)
      | inr (parts, e) ↦ ground (arith, later, e)
    ]
names_dispatcher_lem (Messages.cons (string_node s) (Messages.cons m ms)) = refl
names_dispatcher_lem (Messages.cons m ms) = refl

module _ {W : Type 0} (registry : FunctionRegistry W) (dispatch_id : Text) where
  -- A schema has a function of a name in the registry.
  is_registered : Text → Text → Bool
  unfolding lookup
  is_registered s n = elim (lookup s registry) [
    | none ↦ false
    | some functions ↦ elim (lookup n functions) [ none ↦ false | some overloads ↦ true ]
  ]

  has_lem : (s n : Text) → has s n registry ≡ is_registered s n
  unfolding has find_overloads is_some or_make is_registered
  has_lem s n = elim (Option-cases (lookup s registry)) [
    | inl e ↦ rw (is_registered, e) refl
    | inr (functions, e) ↦ elim (Option-cases (lookup n functions)) [
      | inl f ↦ rw (is_registered, e, f) refl
      | inr (overloads, f) ↦ rw (is_registered, e, f) refl
    ]
  ]

  -- The name and arguments that the rewriting writes.
  is_route : Messages → Messages → Bool
  unfolding text_eq is_registered
  is_route (Messages.cons (string_node d) Messages.nil)
        (Messages.cons
          (const_node id)
          (Messages.cons (const_node s) (Messages.cons (const_node n) rest))) =
      text_eq d dispatcher_name && text_eq id dispatch_id && is_registered s n
  is_route _ _ = false

  guarded_call : Messages → Messages → Bool
  unfolding is_route ends_in_dispatcher
  guarded_call names args = if ends_in_dispatcher names then is_route names args else true

  -- Every call of the dispatcher in a tree is one that the rewriting writes.
  mutual
    unfolding guarded_call

    pub guarded : Message → Bool
    guarded (func_call flags names args agg_order agg_filter over) =
        guarded_call names args
        && guarded_all names
        && guarded_all args
        && guarded_all agg_order
        && guarded_optional agg_filter
        && guarded_optional over
    guarded (string_node s) = true
    guarded (const_node s) = true
    guarded (range_var schema relation alias) = guarded_optional alias
    guarded (type_name names rest) = guarded_all names && guarded_all rest
    guarded (a_expr kind name operands) = guarded_all name && guarded_all operands
    guarded (create_stmt relation elements rest) =
        guarded_optional relation && guarded_all elements && guarded_all rest
    guarded (constraint table rest) = guarded_optional table && guarded_all rest
    guarded (other_node tag fields) = guarded_all fields

    pub guarded_all : Messages → Bool
    guarded_all Messages.nil = true
    guarded_all (Messages.cons m ms) = guarded m && guarded_all ms

    pub guarded_optional : Optional → Bool
    guarded_optional absent = true
    guarded_optional (present m) = guarded m

  abbrev G : Message → Type 0
  G m = guarded m ≡ true

  abbrev Gs : Messages → Type 0
  Gs ms = guarded_all ms ≡ true

  abbrev Go : Optional → Type 0
  Go o = guarded_optional o ≡ true

  module _ (default_schema : Text) where
    routed_to-has :
        (names : Messages) (s n : Text)
        → routed_to registry dispatch_id default_schema names ≡ some (s, n)
        → is_registered s n ≡ true
    unfolding routed_to ◌>>=◌
    routed_to-has names s n h = sym (has_lem s n) ∙ ground arith

    dispatcher_call-guarded :
        (flags : CallFlags) (args agg_order : Messages) (agg_filter over : Optional) (s n : Text)
        → Gs args
        → Gs agg_order
        → Go agg_filter
        → Go over
        → is_registered s n ≡ true
        → G (
            dispatcher_call registry dispatch_id default_schema flags args agg_order agg_filter over
              (s, n))
    unfolding dispatcher_call guarded
    dispatcher_call-guarded flags args agg_order agg_filter over s n a o f v h =
        ground (arith, text_eq_refl dispatch_id)

    route_call-guarded :
        (flags : CallFlags) (names args agg_order : Messages) (agg_filter over : Optional)
        (changed : Bool)
        → Gs names
        → Gs args
        → Gs agg_order
        → Go agg_filter
        → Go over
        → Holds G (
            route_call registry dispatch_id default_schema flags names args agg_order agg_filter
              over changed)
    unfolding route_call guarded
    route_call-guarded flags names args agg_order agg_filter over changed g a o f v =
        let same = names_dispatcher_lem names in
        elim (Bool-cases (names_dispatcher names)) [
          | inl bad ↦ rw (bad) tt
          | inr good ↦
              let kept : G (func_call flags names args agg_order agg_filter over) =
                rw (sym same ∙ good, g, a, o, f, v) refl in
              elim (Bool-cases (plain_scalar_call flags agg_order agg_filter over)) [
                | inr p ↦ rw (good, p) kept
                | inl p ↦
                    elim (Option-cases (routed_to registry dispatch_id default_schema names)) [
                      | inl e ↦ rw (good, p, e) kept
                      | inr ((s, n), e) ↦
                          rw (good, p, e)
                            (dispatcher_call-guarded flags args agg_order agg_filter over s n a o f
                              v (routed_to-has names s n e))
                    ]
              ]
        ]

    mutual
      unfolding rewrite_message guarded

      message-guarded :
          (m : Message) → Holds G (rewrite_message registry dispatch_id default_schema m)
      message-guarded (func_call flags names args agg_order agg_filter over) =
          Holds-bind Gs G _ _ (all-guarded names) λ r₁ g₁.
            Holds-bind Gs G _ _ (all-guarded args) λ r₂ g₂.
              Holds-bind Gs G _ _ (all-guarded agg_order) λ r₃ g₃.
                Holds-bind Go G _ _ (optional-guarded agg_filter) λ r₄ g₄.
                  Holds-bind Go G _ _ (optional-guarded over) λ r₅ g₅.
                    route_call-guarded flags r₁.0 r₂.0 r₃.0 r₄.0 r₅.0
                      (r₁.1 || r₂.1 || r₃.1 || r₄.1 || r₅.1) g₁ g₂ g₃ g₄ g₅
      message-guarded (string_node s) = refl
      message-guarded (const_node s) = refl
      message-guarded (range_var schema relation alias) =
          Holds-bind Go G _ _ (optional-guarded alias) λ r g. g
      message-guarded (type_name names rest) =
          Holds-bind Gs G _ _ (all-guarded names)
            λ r₁ g₁. Holds-bind Gs G _ _ (all-guarded rest) λ r₂ g₂. rw (g₁, g₂) refl
      message-guarded (a_expr kind name operands) =
          Holds-bind Gs G _ _ (all-guarded name)
            λ r₁ g₁. Holds-bind Gs G _ _ (all-guarded operands) λ r₂ g₂. rw (g₁, g₂) refl
      message-guarded (create_stmt relation elements rest) =
          Holds-bind Go G _ _ (optional-guarded relation) λ r₁ g₁.
            Holds-bind Gs G _ _ (all-guarded elements)
              λ r₂ g₂. Holds-bind Gs G _ _ (all-guarded rest) λ r₃ g₃. rw (g₁, g₂, g₃) refl
      message-guarded (constraint table rest) =
          Holds-bind Go G _ _ (optional-guarded table)
            λ r₁ g₁. Holds-bind Gs G _ _ (all-guarded rest) λ r₂ g₂. rw (g₁, g₂) refl
      message-guarded (other_node tag fields) = Holds-bind Gs G _ _ (all-guarded fields) λ r g. g

      all-guarded :
          (ms : Messages) → Holds Gs (rewrite_messages registry dispatch_id default_schema ms)
      all-guarded Messages.nil = refl
      all-guarded (Messages.cons m ms) =
          Holds-bind G Gs _ _ (message-guarded m)
            λ r₁ g₁. Holds-bind Gs Gs _ _ (all-guarded ms) λ r₂ g₂. rw (g₁, g₂) refl

      optional-guarded :
          (o : Optional) → Holds Go (rewrite_optional registry dispatch_id default_schema o)
      optional-guarded absent = refl
      optional-guarded (present m) = Holds-bind G Go _ _ (message-guarded m) λ r g. g

    -- If the rewriting of a statement's trees succeeds, then every call in the result whose last name
    -- is the dispatcher's, in any case, has the bare name of the dispatcher, this database's dispatch
    -- id, and a schema and a function that are registered in it.
    pub rewrite_messages-guarded :
        (trees : Messages) {trees' : Messages} {changed : Bool}
        → rewrite_messages registry dispatch_id default_schema trees ≡ some (trees', changed)
        → guarded_all trees' ≡ true
    rewrite_messages-guarded trees h = subst (Holds Gs) h (all-guarded trees)
