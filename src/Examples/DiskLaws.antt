-- ===== src/Examples/DiskLaws.antt =====
-- What the operations on a `Disk` do.
use pgmem.Common.TextLaws.{text_eq_refl}
use pgmem.Examples.Disk.{
  Disk, put, temp, read_name, read_path, vacuumed, attach_shared, attached, attach_name, restored,
  driver_of, storage, opened, contents, opened_either,
}
use pgmem.Backup.Create.{vacuum_statement}
use pgmem.Backup.Restore.{detach_statement, attach_statement}
use pgmem.Backup.Holder.{restore_uri}
use pgmem.Backup.Storage.{DriverConnection}
use pgmem.Backup.Documented.{Same, SameBut}
use pgmem.Quote.{quote_identifier, quote_string_literal, read_quoted}
use pgmem.Quote.ReadBack.{read_quoted-quote_identifier, read_quoted-quote_string_literal}
use pgmem.Engine.{ExecAnswer, Effect}
use pgmem.Common.{
  true, false, Bool, refl, ap, sym, ◌∙◌, ◌≡◌, ◌≢◌, ℕ, Bool-cases, inl, inr, Option, none, some, [],
  ◌∷◌, ◌++◌, arith, append-nil, append_assoc, drop, Option-cases, Bool, true,
}
use pgmem.Common.Text.{Text, codes, text_eq, text_eq_iff}
use pgmem.Errors.{ok, GoError}
use pgmem.Values.{Value}

pub put-same : {V : Type 0} (key : Text) (value : V) (f : Text → V) → put key value f key ≡ value
put-same key value f = rw (text_eq_refl key) refl

pub put-other :
    {V : Type 0} (key other : Text) (value : V) (f : Text → V)
    → other ≢ key
    → put key value f other ≡ f other
put-other key other value f ne = elim (Bool-cases (text_eq other key)) [
  | inl e ↦ absurd (ne ((text_eq_iff other key).0 e))
  | inr e ↦ rw e refl
]

abbrev pub Untouched : Disk → Disk → Type 0
Untouched w w' = Same (λ d. d.live) (λ d. d.shared) (λ d. d.files) w w'

pub untouched : (w : Disk) → Untouched w w
untouched w = record { same_live = refl; same_shared = refl; same_files = refl }

pub read_vacuum :
    (name path : Text)
    → read_name (read_quoted b'"' (drop 7 (vacuum_statement name path))) ≡ some (name, path)
unfolding vacuum_statement read_name
read_vacuum name path =
    ap (λ t. read_name (read_quoted b'"' t))
      (append_assoc (quote_identifier name) (codes " INTO ") (quote_string_literal path))
    ∙ ap read_name (
        read_quoted-quote_identifier name (codes " INTO " ++ quote_string_literal path)
          λ e. omega (arith, e))
    ∙ ap (λ t. read_path name (read_quoted b'\'' t)) (sym (append-nil (quote_string_literal path)))
    ∙ ap (read_path name) (read_quoted-quote_string_literal path [] tt)

pub read_attach : (name : Text) → attach_name (attach_statement name) ≡ some (name, [])
unfolding attach_statement attach_name
read_attach name =
    ap (read_quoted b'"') (sym (append-nil (quote_identifier name)))
    ∙ read_quoted-quote_identifier name [] tt

pub read_detach : (name : Text) → attach_name (detach_statement name) ≡ none
unfolding detach_statement attach_name
read_detach name = refl

pub vacuumed-live : (o : Option (Text × Text)) (w : Disk) → (vacuumed o w).0.live ≡ w.live
vacuumed-live none w = refl
vacuumed-live (some (name, path)) w = refl

the_driver :
    (c : ℕ) (w : Disk) (driver : DriverConnection Disk)
    → (storage.raw c w).1 ≡ ok driver
    → driver_of c ≡ driver
the_driver c w driver h = cc

the_some : {A : Type 0} {a b : A} → some a ≡ some b → a ≡ b
the_some h = cc

pub the_ok : {A : Type 0} {a b : A} → ok a ≡ ok b → a ≡ b
the_ok h = cc

pub serializer :
    (c : ℕ) (w : Disk) (driver : DriverConnection Disk) (f : Effect Disk Text)
    → (storage.raw c w).1 ≡ ok driver
    → driver.serialize ≡ some f
    → (v : Disk) → f v ≡ (v, ok (v.live (codes "main")))
serializer c w driver f raw has v = sym (
    ap (λ (g : Effect Disk Text). g v)
      (the_some (ap (λ d. d.serialize) (the_driver c w driver raw) ∙ has)))

pub deserializer :
    (c : ℕ) (w : Disk) (driver : DriverConnection Disk) (f : Text → Disk → Disk × Option GoError)
    → (storage.raw c w).1 ≡ ok driver
    → driver.deserialize ≡ some f
    → (image : Text) (v : Disk)
    → f image v ≡ (record v { live = put (codes "main") image v.live }, none)
deserializer c w driver f raw has image v = sym (
    ap (λ (g : Text → Disk → Disk × Option GoError). g image v)
      (the_some (ap (λ d. d.deserialize) (the_driver c w driver raw) ∙ has)))

pub restorer :
    (c : ℕ) (w : Disk) (driver : DriverConnection Disk) (f : Text → Effect Disk ℕ)
    → (storage.raw c w).1 ≡ ok driver
    → driver.new_restore ≡ some f
    → (path : Text) (v : Disk) → f path v ≡ (opened (text_eq path temp) c v)
restorer c w driver f raw has path v = sym (
    ap (λ (g : Text → Effect Disk ℕ). g path v)
      (the_some (ap (λ d. d.new_restore) (the_driver c w driver raw) ∙ has)))

pub restored-step :
    (restore : ℕ) (o : Option Text) (w : Disk)
    → SameBut
        (λ d. d.live)
        (λ d. d.shared)
        (λ d. d.files)
        (restore_uri restore)
        w
        (restored restore o w).0
restored-step restore none w = record {
  but_live = refl;
  but_shared = λ other ne. refl;
  but_files = refl;
}
restored-step restore (some image) w = record {
  but_live = refl;
  but_shared = λ other ne. put-other (restore_uri restore) other (some image) w.shared ne;
  but_files = refl;
}

pub attached-others :
    (name uri : Text) (w : Disk)
    → ((attached (Value.string uri ∷ []) (some (name, [])) w).0.shared ≡ w.shared)
      × ((other : Text)
          → other ≢ name
          → (attached (Value.string uri ∷ []) (some (name, [])) w).0.live other ≡ w.live other)
attached-others name uri w = elim (Option-cases (w.shared uri)) [
  | inl e ↦ rw e (refl, λ other ne. refl)
  | inr (database, e) ↦ rw e (refl, λ other ne. put-other name other database w.live ne)
]

pub opened-Untouched : (b : Bool) (n : ℕ) (v : Disk) → Untouched v (opened b n v).0
opened-Untouched true n v = untouched v
opened-Untouched false n v = untouched v

pub opened_either-Untouched : (a b : Bool) (v : Disk) → Untouched v (opened_either a b v).0
opened_either-Untouched true b v = untouched v
opened_either-Untouched false b v = opened-Untouched b 2 v

pub contents-Untouched : (o : Option Text) (v : Disk) → Untouched v (contents o v).0
contents-Untouched none v = untouched v
contents-Untouched (some bytes) v = untouched v

pub contents-eq-ok :
    (o : Option Text) (v w : Disk) (bytes : Text) → contents o v ≡ (w, ok bytes) → o ≡ some bytes
contents-eq-ok none v w bytes h = cc
contents-eq-ok (some b) v w bytes h = cc

pub opened-eq-ok :
    (b : Bool) (n m : ℕ) (v w : Disk) → opened b n v ≡ (w, ok m) → (b ≡ true) × (n ≡ m)
opened-eq-ok true n m v w h = (refl, cc)
opened-eq-ok false n m v w h = cc

pub opened_either-eq-ok :
    (uri : Text) (d : ℕ) (v w : Disk) (a b : Bool)
    → (a ≡ true → uri ≡ restore_uri 1)
    → (b ≡ true → uri ≡ restore_uri 2)
    → opened_either a b v ≡ (w, ok d)
    → restore_uri d ≡ uri
opened_either-eq-ok uri d v w true b first second h = ap restore_uri (sym one) ∙ sym (first refl)
  where
    one : 1 ≡ d
    one = cc
opened_either-eq-ok uri d v w false b first second h =
    let (is, two) = opened-eq-ok b 2 d v w h in ap restore_uri (sym two) ∙ sym (second is)

pub restored-eq-none :
    (r : ℕ) (o : Option Text) (image : Text) (v w : Disk)
    → restored r o v ≡ (w, none)
    → o ≡ some image
    → w.shared (restore_uri r) ≡ some image
restored-eq-none r none image v w h has = cc
restored-eq-none r (some b) image v w h has =
    ap (λ u. u.0.shared (restore_uri r)) (sym h) ∙ put-same (restore_uri r) (some b) v.shared ∙ has

pub vacuumed-eq-ok :
    (name path : Text) (o : Option (Text × Text)) (v w : Disk) (answer : ExecAnswer)
    → o ≡ some (name, path)
    → vacuumed o v ≡ (w, ok answer)
    → w.files path ≡ some (v.live name)
vacuumed-eq-ok name path o v w answer is h =
    ap (λ u. u.0.files path) (sym h)
    ∙ ap (λ p. (vacuumed p v).0.files path) is
    ∙ put-same path (some (v.live name)) v.files

pub attached-eq-ok :
    (name uri : Text) (o : Option (Text × Text)) (v w : Disk) (answer : ExecAnswer)
    (database : Text)
    → o ≡ some (name, [])
    → attached (Value.string uri ∷ []) o v ≡ (w, ok answer)
    → v.shared uri ≡ some database
    → w.live name ≡ database
attached-eq-ok name uri o v w answer database is h has =
    ap (λ u. u.0.live name) (sym h)
    ∙ ap (λ p. (attached (Value.string uri ∷ []) p v).0.live name) is
    ∙ ap (λ s. (attach_shared name s v).0.live name) has
    ∙ put-same name database v.live
