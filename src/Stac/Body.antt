-- ===== src/Stac/Body.antt =====
-- `build_search_body` and `apply_next`.
use duckdb_cog.Base.{
  ℕ, ◌≡◌, refl, ◌∙◌, arith, Bool, true, false, Option, none, some, List, [], ◌∷◌, inl, inr,
  if◌then◌else◌, Bool-cases,
}
use duckdb_cog.Float.{Float}
use duckdb_cog.Meta.{Bbox}
use duckdb_cog.Meta.Text.{codes}
use duckdb_cog.Base.Texts.{Text, text_eq, text_ltb, text_eq_sound, text_eq_refl}
use duckdb_cog.Stac.{
  Value, number, string, array, object, Values, end, item, Members, close, member, StacNext,
  find_member, as_object,
}

module _ {F : Type 0} where
  -- `Map::insert`, in the order of the keys.
  unfoldable pub insert_member : Text → Value F → Members F → Members F
  insert_member k v close = member k v close
  insert_member k v (member j w ms) =
      let rest = insert_member k v ms in
      if text_eq j k
      then member k v ms
      else if text_ltb k j
      then member k v (member j w ms)
      else member j w rest

  -- The loop of `apply_next` over the members of the next body.
  unfoldable pub merge_members : Members F → Members F → Members F
  unfolding insert_member
  merge_members merged close = merged
  merge_members merged (member k v ms) = merge_members (insert_member k v merged) ms

  members_or_empty : Option (Members F) → Members F
  members_or_empty none = close
  members_or_empty (some ms) = ms

  -- The `match (&next.body, next.merge)`.
  pub next_body : Value F → Option (Value F) → Bool → Option (Value F)
  unfolding members_or_empty merge_members
  next_body original none merge = none
  next_body original (some nb) false = some nb
  next_body original (some nb) true = some (
      object (
        merge_members (members_or_empty (as_object (some original)))
          (members_or_empty (as_object (some nb)))))

  -- `apply_next`: the address, the method and the body of the next request.
  unfoldable pub apply_next : Value F → StacNext F → Text × Text × Option (Value F)
  unfolding next_body
  apply_next original next = (next.href, next.method, next_body original next.body next.merge)

  insert_option : Text → Option (Value F) → Members F → Members F
  insert_option k none ms = ms
  insert_option k (some v) ms = insert_member k v ms

  strings : List Text → Values F
  strings [] = end
  strings (s ∷ ss) = item (string s) (strings ss)

  wrap {ℓ} : {A : Type ℓ} → (A → Value F) → Option A → Option (Value F)
  wrap f none = none
  wrap f (some a) = some (f a)

module _ {F : Type 0} ⦃fl : Float F⦄ where
  box_value : Bbox F → Value F
  box_value b = array (
      item (number b.xmin) (item (number b.ymin) (item (number b.xmax) (item (number b.ymax) end))))

  -- `build_search_body`.
  unfoldable pub build_search_body :
      Option (List Text) → Option (Bbox F) → Option Text → Option ℕ → Value F
  unfolding insert_option strings wrap box_value
  build_search_body collections bbox datetime limit =
      let b0 =
        insert_option (codes "collections") (wrap (λ c. array (strings c)) collections) close in
      let b1 = insert_option (codes "bbox") (wrap box_value bbox) b0 in
      let b2 = insert_option (codes "datetime") (wrap string datetime) b1 in
      let b3 = insert_option (codes "limit") (wrap (λ n. number (fl.of_nat n)) limit) b2 in
      object b3

module _ {F : Type 0} where
  find-insert_member :
      (k q : Text) (v : Value F) (ms : Members F)
      → find_member q (insert_member k v ms) ≡ (if text_eq k q then some v else find_member q ms)
  unfolding find_member insert_member
  find-insert_member k q v close = refl
  find-insert_member k q v (member j w ms) = ground (
    arith,
    text_eq_sound j k,
    text_eq_sound j q,
    text_eq_sound k q,
    text_eq_refl j,
    text_eq_refl k,
    find-insert_member k q v ms,
  )

  -- No key twice.
  abbrev pub Distinct : Members F → Type 0
  Distinct close = Unit
  Distinct (member k v ms) = (find_member k ms ≡ none) × Distinct ms

  abbrev pub or_member : Option (Value F) → Option (Value F) → Option (Value F)
  or_member none o = o
  or_member (some v) o = some v

  find-merge_members :
      (merged ms : Members F) (q : Text)
      → Distinct ms
      → find_member q (merge_members merged ms)
        ≡ or_member (find_member q ms) (find_member q merged)
  unfolding merge_members find_member
  find-merge_members merged close q d = refl
  find-merge_members merged (member k v ms) q d = elim (Bool-cases (text_eq k q)) [
    | inl same ↦
        let here : find_member q ms ≡ none = rw (← text_eq_sound k q same) d.0 in
        find-merge_members (insert_member k v merged) ms q d.1
        ∙ rw (same, here, find-insert_member k q v merged) (rw (same) refl)
    | inr other ↦
        find-merge_members (insert_member k v merged) ms q d.1
        ∙ rw (other, find-insert_member k q v merged) (rw (other) refl)
  ]

  -- For a next link that asks for a merge, where both bodies are objects and the next body names
  -- no key twice: the body of the next request has for every key the value of the next body, or
  -- where that has none the value of the original body; the address and the method are the link's.
  pub apply_next-merges :
      (original : Members F) (next : StacNext F) (ms : Members F)
      → next.body ≡ some (object ms)
      → next.merge ≡ true
      → Distinct ms
      → ((apply_next (object original) next).0 ≡ next.href)
        × ((apply_next (object original) next).1 ≡ next.method)
        × ((merged : Members F) × ((apply_next (object original) next).2 ≡ some (object merged))
            × ((q : Text)
                → find_member q merged ≡ or_member (find_member q ms) (find_member q original)))
  unfolding apply_next next_body members_or_empty as_object
  apply_next-merges original next ms body merge d = (
    refl,
    refl,
    (merge_members original ms, rw (body, merge) refl, λ q. find-merge_members original ms q d),
  )
