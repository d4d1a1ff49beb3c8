-- ===== src/Sql/Vector/Columns.antt =====
-- Vectors that are functions, for the tests.
use duckdb_cog.Base.{ℕ, Bool, true, false, refl, ◌==◌, if◌then◌else◌}
use duckdb_cog.Sql.Vector.{FlatVector, ListVector}

abbrev pub put_slot : {A : Type 0} → (ℕ → A) → ℕ → A → ℕ → A
put_slot f i a j = if i == j then a else f j

abbrev pub Column : Type 0 → Type 0
Column A = (ℕ → A) × (ℕ → Bool)

abbrev pub column : {A : Type 0} → FlatVector A (Column A)
column = record {
  slot = λ v. v.0;
  is_null = λ v. v.1;
  put = λ v i a. (put_slot v.0 i a, v.1);
  set_null = λ v i. (v.0, put_slot v.1 i true);
  slot-put = λ v i a j. refl;
  is_null-put = λ v i a j. refl;
  slot-set_null = λ v i j e. refl;
  is_null-set_null = λ v i j. refl;
}

abbrev pub Lists : Type 0
Lists = Column (ℕ × ℕ) × ℕ

abbrev pub lists : ListVector Lists
lists = record {
  entry = λ l. l.0.0;
  is_null = λ l. l.0.1;
  set_entry = λ l i o n. ((put_slot l.0.0 i (o, n), l.0.1), l.1);
  set_null = λ l i. ((l.0.0, put_slot l.0.1 i true), l.1);
  child_len = λ l. l.1;
  set_len = λ l n. (l.0, n);
  child_len-set_len = λ l n. refl;
  entry-set_len = λ l n j. refl;
  is_null-set_len = λ l n j. refl;
  entry-set_entry = λ l i o n j. refl;
  is_null-set_entry = λ l i o n j. refl;
  entry-set_null = λ l i j e. refl;
  is_null-set_null = λ l i j. refl;
}

abbrev pub blank_lists : Lists
blank_lists = ((λ i. (9, 9), λ i. false), 0)

abbrev pub blank : {A : Type 0} → A → Column A
blank a = (λ i. a, λ i. false)
