-- ===== src/Http/Extractors/Order.antt =====
-- The order of the parts of a query, hitbox-http/src/extractors/query.rs: the parsed query is a hash
-- map, which gives its entries in any order.
use hitbox.Prelude.{
  String, Bool, true, false, Option, none, some, List, [], ◌∷◌, ◌++◌, if◌then◌else◌, All, ◌≡◌, refl,
  sym, ap, ◌∙◌, ◌≢◌, arith,
}
use hitbox.Key.{KeyPart}
use hitbox.Http.Heads.{QueryValue, inner_values}
use hitbox.Http.Extractors.{
  Texts, starts, ValueExtractor, Transform, insert, sort_by_key, changed, extract_text, part_of,
  values_parts, queries_with, query_parts,
}

-- The documented behaviour of the order of texts.
pub record IsOrder (le : String → String → Bool) : Type 0 where
  pub total : (a b : String) → le a b ≡ false → le b a ≡ true
  pub antisym : (a b : String) → le a b ≡ true → le b a ≡ true → a ≡ b
  pub trans : (a b c : String) → le a b ≡ true → le b c ≡ true → le a c ≡ true

-- The same entries in another order, where no two of those that change places have the same name.
pub data Reordered : List (String × QueryValue) → List (String × QueryValue) → Type 0 where
  same : {es : List (String × QueryValue)} → Reordered es es
  swapped :
      {name name' : String} {v v' : QueryValue} {es : List (String × QueryValue)}
      → name ≢ name'
      → Reordered ((name, v) ∷ ((name', v') ∷ es)) ((name', v') ∷ ((name, v) ∷ es))
  later :
      {e : String × QueryValue} {es es' : List (String × QueryValue)}
      → Reordered es es'
      → Reordered (e ∷ es) (e ∷ es')
  then_ :
      {es es' es'' : List (String × QueryValue)}
      → Reordered es es'
      → Reordered es' es''
      → Reordered es es''

module _ {Regex : Type 0} (t : Texts Regex) (order : IsOrder t.le) where
  differ : (a b : String) → a ≢ b → t.le a b ≡ true → t.le b a ≡ true → ⊥
  differ a b h e f = h (order.antisym a b e f)

  insert-swap :
      (p q : KeyPart) (l : List KeyPart)
      → p.key ≢ q.key
      → insert t p (insert t q l) ≡ insert t q (insert t p l)
  insert-swap p q [] h = ground (arith, differ p.key q.key h, order.total p.key q.key)
  insert-swap p q (x ∷ l) h = ground (
    arith,
    differ p.key q.key h,
    order.total p.key q.key,
    order.trans p.key q.key x.key,
    order.trans q.key p.key x.key,
    insert-swap p q l h,
  )

  -- The parts of a list put in front of a sorted one.
  onto : List KeyPart → List KeyPart → List KeyPart
  onto [] l = l
  onto (p ∷ ps) l = insert t p (onto ps l)

  sort-append : (ps qs : List KeyPart) → sort_by_key t (ps ++ qs) ≡ onto ps (sort_by_key t qs)
  unfolding onto
  sort-append [] qs = refl
  sort-append (p ∷ ps) qs = ap (insert t p) (sort-append ps qs)

  abbrev Keyed : String → List KeyPart → Type 0
  Keyed name ps = All (λ p. p.key ≡ name) ps

  insert-onto :
      (name : String) (p : KeyPart) (qs l : List KeyPart)
      → p.key ≢ name
      → Keyed name qs
      → insert t p (onto qs l) ≡ onto qs (insert t p l)
  unfolding onto
  insert-onto name p [] l h keyed = refl
  insert-onto name p (q ∷ qs) l h keyed =
      insert-swap p q (onto qs l) (λ e. h (e ∙ keyed.0))
      ∙ ap (insert t q) (insert-onto name p qs l h keyed.1)

  onto-swap :
      (name name' : String) (ps qs l : List KeyPart)
      → name ≢ name'
      → Keyed name ps
      → Keyed name' qs
      → onto ps (onto qs l) ≡ onto qs (onto ps l)
  unfolding onto
  onto-swap name name' [] qs l h mine others = refl
  onto-swap name name' (p ∷ ps) qs l h mine others =
      ap (insert t p) (onto-swap name name' ps qs l h mine.1 others)
      ∙ insert-onto name' p qs (onto ps l) (λ e. h (sym mine.0 ∙ e)) others

  module _ (extractor : ValueExtractor Regex) (transforms : List Transform) where
    part_of-Keyed :
        (name : String) (value : Option String) (rest : List KeyPart)
        → Keyed name rest
        → Keyed name (part_of t extractor transforms name value rest)
    unfolding part_of
    part_of-Keyed name none rest h = h
    part_of-Keyed name (some v) rest h = (refl, h)

    values-Keyed :
        (name : String) (vs : List String)
        → Keyed name (values_parts t extractor transforms name vs)
    unfolding values_parts
    values-Keyed name [] = ground arith
    values-Keyed name (v ∷ vs) =
        part_of-Keyed name (changed t extractor transforms (extract_text t v extractor))
          (values_parts t extractor transforms name vs) (values-Keyed name vs)

    -- The parts of one entry of the query.
    entry_parts : String → String × QueryValue → List KeyPart
    entry_parts prefix (name, v) =
        if t.starts_with prefix name
        then values_parts t extractor transforms name (inner_values v)
        else []

    queries_with-cons :
        (prefix : String) (e : String × QueryValue) (es : List (String × QueryValue))
        → sort_by_key t (queries_with t extractor transforms prefix (e ∷ es))
          ≡ onto
              (entry_parts prefix e)
              (sort_by_key t (queries_with t extractor transforms prefix es))
    unfolding queries_with entry_parts onto
    queries_with-cons prefix (name, v) es = ground (
      arith,
      sort-append (values_parts t extractor transforms name (inner_values v))
          (queries_with t extractor transforms prefix es),
    )

    entry-Keyed :
        (prefix name : String) (v : QueryValue) → Keyed name (entry_parts prefix (name, v))
    unfolding entry_parts
    entry-Keyed prefix name v = ground (arith, values-Keyed name (inner_values v))

    Reordered-sorted :
        (prefix : String) {es es' : List (String × QueryValue)}
        → Reordered es es'
        → sort_by_key t (queries_with t extractor transforms prefix es)
          ≡ sort_by_key t (queries_with t extractor transforms prefix es')
    Reordered-sorted prefix same = refl
    Reordered-sorted prefix (swapped {name} {name'} {v} {v'} {es} h) =
        let rest = sort_by_key t (queries_with t extractor transforms prefix es) in
        queries_with-cons prefix (name, v) ((name', v') ∷ es)
        ∙ ap (onto (entry_parts prefix (name, v))) (queries_with-cons prefix (name', v') es)
        ∙ onto-swap name name' (entry_parts prefix (name, v)) (entry_parts prefix (name', v')) rest
            h (entry-Keyed prefix name v) (entry-Keyed prefix name' v')
        ∙ sym (ap (onto (entry_parts prefix (name', v'))) (queries_with-cons prefix (name, v) es))
        ∙ sym (queries_with-cons prefix (name', v') ((name, v) ∷ es))
    Reordered-sorted prefix (later {e} {es} {es'} r) =
        queries_with-cons prefix e es
        ∙ ap (onto (entry_parts prefix e)) (Reordered-sorted prefix r)
        ∙ sym (queries_with-cons prefix e es')
    Reordered-sorted prefix (then_ r r') = Reordered-sorted prefix r ∙ Reordered-sorted prefix r'

    -- The parts that are read of the query by a prefix do not depend on the order in which the hash
    -- map gives its entries, whatever is extracted of their values and however it is transformed:
    -- the stable sort by the name makes them the same, the values of one name in their order.
    pub query_parts-Reordered :
        (prefix : String) (es es' : List (String × QueryValue))
        → Reordered es es'
        → query_parts t extractor transforms (starts prefix) es
          ≡ query_parts t extractor transforms (starts prefix) es'
    unfolding query_parts
    query_parts-Reordered prefix es es' r = Reordered-sorted prefix r
