-- ===== src/Queries/Texts.antt =====
-- backend/src/common/id-filter.ts, and what the mappers use of other code.
use exchange_matching.Base.{ℕ, Bool, true, Option, none, some, if◌then◌else◌, ◌==◌, ◌||◌, ◌&&◌, ltb}

-- Texts, with what decimal.js, the language and the database do with them. The times are those of the
-- rows of one table, by their ids.
pub record Texts : Type 1 where
  pub Text : Type 0
  pub trim : Text → Text
  pub is_empty : Text → Bool
  pub starts_with : (prefix text : Text) → Bool
  pub id_text : ℕ → Text
  pub to_fixed : (units : ℕ) → Text
  pub to_iso_string : (time : ℕ) → Text
  pub created_at : (id : ℕ) → ℕ
  pub updated_at : (id : ℕ) → ℕ

module _ (x : Texts) where
  -- `buildIdPrefixFilter`
  abbrev pub build_id_prefix_filter : Option x.Text → Option x.Text
  build_id_prefix_filter none = none
  build_id_prefix_filter (some id) = if x.is_empty (x.trim id) then none else some (x.trim id)

  -- `id: { startsWith }`, or no condition.
  abbrev pub has_prefix : Option x.Text → (id : ℕ) → Bool
  has_prefix none id = true
  has_prefix (some prefix) id = x.starts_with prefix (x.id_text id)

  -- `orderBy: [{ createdAt: 'desc' }, { sequence: 'desc' }]`
  abbrev pub is_newer : (id sequence other_id other_sequence : ℕ) → Bool
  is_newer id sequence other_id other_sequence =
      ltb (x.created_at other_id) (x.created_at id)
      || (x.created_at other_id == x.created_at id && ltb other_sequence sequence)
