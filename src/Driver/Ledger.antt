-- ===== src/Driver/Ledger.antt =====
-- What a session keeps of its transactions, and what is invariant of it.
use pgmem.Driver.{SqlTransaction, Session, member, is_active}
use pgmem.Common.{
  ℕ, ◌+◌, ◌<◌, ◌≡◌, ◌⊎◌, inl, inr, refl, Bool, true, false, Option, none, some, List, ◌∷◌, arith,
  Option-cases, nat_Key,
}
use pgmem.Common.Text.{text_Key}

-- What a session keeps of its transactions.
pub record Ledger : Type 0 where
  pub transaction : Option SqlTransaction
  pub is_shut : Bool
  pub finished : List ℕ
  pub next_id : ℕ

abbrev pub ledger : {W : Type 0} → Session W → Ledger
ledger s = record {
  transaction = s.transaction;
  is_shut = s.is_shut;
  finished = s.finished;
  next_id = s.next_id;
}

-- The ids in use are below the next one; the active transaction is not finished; every transaction
-- object that was ever made is the active one or is finished; and a connection that is closed has no
-- active transaction.
pub record IsCoherent (l : Ledger) : Type 0 where
  pub fresh : (id : ℕ) → member id l.finished ≡ true → id < l.next_id
  pub active :
      (t : SqlTransaction)
      → l.transaction ≡ some t
      → (t.id < l.next_id) × (member t.id l.finished ≡ false)
  pub accounted :
      (id : ℕ)
      → id < l.next_id
      → (is_active id l.transaction ≡ true) ⊎ (member id l.finished ≡ true)
  pub shut : l.is_shut ≡ true → l.transaction ≡ none

-- A new transaction, where none is active.
pub opened :
    (l : Ledger) (t : SqlTransaction)
    → IsCoherent l
    → l.transaction ≡ none
    → l.is_shut ≡ false
    → t.id ≡ l.next_id
    → IsCoherent (record l { transaction = some t; next_id = l.next_id + 1 })
opened l t h e open_ i = record {
  fresh = λ id m. omega (arith, h.fresh id m);
  active = λ x q. ground (arith, h.fresh t.id);
  accounted = λ id b. ground (arith, h.accounted id);
  shut = λ q. cc;
}

-- The end of the active transaction, with or without the end of the connection.
pub ended :
    (l : Ledger) (t : SqlTransaction) (is_shut : Bool)
    → IsCoherent l
    → is_active t.id l.transaction ≡ true
    → IsCoherent (record l { transaction = none; finished = t.id ∷ l.finished; is_shut = is_shut })
ended l t b h a = record {
  fresh = λ id m. elim (Option-cases l.transaction) [
    | inl e ↦ absurd (ground (arith, e))
    | inr (x, e) ↦ ground (arith, h.fresh id, h.active x e)
  ];
  active = λ x q. cc;
  accounted = λ id low. ground (arith, h.accounted id);
  shut = λ q. refl;
}
