-- ===== src/Examples/SampleSql.antt =====
-- A concrete `Sql` that meets every law: the table is an association list, and only an insertion of a
-- user who is there fails.
use qt_messenger.Prelude.{
  true, ◌≡◌, ◌↔◌, refl, sym, ap, ◌∙◌, Option, Option-cases, none, some, List, [], ◌∷◌, ◌++◌, Bytes,
  length, decide, decide_iff, inl, inr, if◌then◌else◌, arith,
}
use qt_messenger.UnorderedMap.{find, emplace, find-emplace}
use qt_messenger.Database.{
  Sql, Statement, create_table, count_all, insert_user, select_password, count_user, Value, integer,
  row_of, count_of,
}
use qt_messenger.Client.QtText.{QtText}
use qt_messenger.Examples.SampleQt.{sample_qt, Bytes-discrete}

abbrev pub Table : Type 0
Table = List (Bytes × Bytes)

abbrev pub insert_absent : Option Bytes → Bytes → Bytes → Table → Option (List Value) × Table
insert_absent none u p d = (some [], emplace Bytes-discrete u p d)
insert_absent (some q) u p d = (none, d)

abbrev pub execute : Statement → Table → Option (List Value) × Table
execute create_table d = (some [], d)
execute count_all d = (some (integer (length d) ∷ []), d)
execute (insert_user u p) d = insert_absent (find Bytes-discrete u d) u p d
execute (select_password u) d = (some (row_of (find Bytes-discrete u d)), d)
execute (count_user u) d = (some (integer (count_of (find Bytes-discrete u d)) ∷ []), d)

pub empty_iff : (d : Table) → (length d ≡ 0) ↔ ((u : Bytes) → find Bytes-discrete u d ≡ none)
unfolding find
empty_iff [] = (λ e u. refl, λ h. refl)
empty_iff ((k, v) ∷ d) = (
  λ e. absurd (omega arith),
  λ h. absurd (
      cc (
        ap (λ b. if b then some v else find Bytes-discrete k d)
            ((decide_iff (Bytes-discrete k k)).1 refl),
        h k,
      )),
)

insert_keeps :
    (o : Option Bytes) (u p : Bytes) (d : Table)
    → (insert_absent o u p d).0 ≡ none
    → (insert_absent o u p d).1 ≡ d
insert_keeps none u p d e = cc
insert_keeps (some q) u p d e = refl

pub execute_keeps : (q : Statement) (d : Table) → (execute q d).0 ≡ none → (execute q d).1 ≡ d
execute_keeps create_table d e = refl
execute_keeps count_all d e = refl
execute_keeps (insert_user u p) d e = insert_keeps (find Bytes-discrete u d) u p d e
execute_keeps (select_password u) d e = refl
execute_keeps (count_user u) d e = refl

pub execute_inserts :
    (u p : Bytes) (d : Table) (rows : List Value)
    → (execute (insert_user u p) d).0 ≡ some rows
    → (v : Bytes)
    → find Bytes-discrete v (execute (insert_user u p) d).1
      ≡ (if decide (Bytes-discrete u v) then some p else find Bytes-discrete v d)
execute_inserts u p d rows e v = elim (Option-cases (find Bytes-discrete u d)) [
  | inl new ↦
      ap (λ o. find Bytes-discrete v (insert_absent o u p d).1) new
      ∙ find-emplace Bytes-discrete u v p d new
  | inr (q, taken) ↦ absurd (cc (sym (ap (λ o. (insert_absent o u p d).0) taken) ∙ e))
]

pub some_injective {ℓ} : {A : Type ℓ} {a b : A} → some a ≡ some b → a ≡ b
some_injective e = cc

instance abbrev pub sample_sql : Sql Table
sample_sql = record {
  open_db = λ d. some d;
  exec = execute;
  password_of = λ d u. find Bytes-discrete u d;
  open_keeps = λ d d' u e. ap (find Bytes-discrete u) (sym (some_injective e));
  failed_keeps = execute_keeps;
  select_keeps = λ u d. refl;
  count_keeps = λ u d. refl;
  count_all_keeps = λ d. refl;
  create_keeps = λ d u. refl;
  selects = λ u d rows e. sym (some_injective e);
  counts = λ u d rows e. sym (some_injective e);
  counts_all = λ d rows e. (length d, sym (some_injective e), empty_iff d);
  insert_present = λ u p q d e. ap (λ o. (insert_absent o u p d).0) e;
  inserts = execute_inserts;
}

-- Texts are shown as they are.
instance abbrev pub sample_text : QtText
sample_text = record {
  first_letter = λ s. s;
  checks_at = true;
  hours_minutes = λ t. t ∷ [];
  to_lower = λ s. s;
  contains_text = λ s t. decide (Bytes-discrete s t);
  arg_text = λ f a. a;
  arg_texts = λ f a b. a;
  arg_count = λ f n s. n ∷ s;
  insert_at = λ n t s. t ++ s;
}
