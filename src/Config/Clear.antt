-- ===== src/Config/Clear.antt =====
-- Predicates that hand on what they are given: the combinators of hitbox-core/src/predicate and the
-- predicates on heads that hitbox-configuration/src/predicates builds.
use hitbox.Prelude.{Bool, true, false, refl, if◌then◌else◌, ◌∙◌}
use hitbox.Core.Predicate.{
  PredicateResult, cacheable, non_cacheable, Predicate, flip, not_, on_non_cacheable, or_, neutral,
}
use hitbox.Http.Body.{BufferedBody}
use hitbox.Http.Body.Content.{content}
use hitbox.Http.Plain.Laws.{subject}
use hitbox.Http.Operation.Transparency.{Forwards, same-Shortens, Shortens-trans}
use hitbox.Http.Heads.{guard}

-- A predicate that hands on every subject with its parts, and a body of its first bytes, or all.
abbrev pub IsClear : {E Parts : Type 0} → Predicate (Parts × BufferedBody E) → Type 0
IsClear {E} {Parts} p = (s : Parts × BufferedBody E) → Forwards s (p s)

module _ {E Parts : Type 0} where
  self-Forwards : (s : Parts × BufferedBody E) → Forwards s (cacheable s)
  self-Forwards s = (refl, same-Shortens (content s.1) s.1 refl)

  Forwards-trans :
      (s x : Parts × BufferedBody E) (r : PredicateResult (Parts × BufferedBody E))
      → Forwards s (cacheable x)
      → Forwards x r
      → Forwards s r
  Forwards-trans s x r h k = (k.0 ∙ h.0, Shortens-trans (content s.1) x.1 (subject r).1 h.1 k.1)

  both_kept :
      (b : Bool) (s x : Parts × BufferedBody E)
      → Forwards s (cacheable x)
      → Forwards s (if b then cacheable x else non_cacheable x)
  both_kept true s x h = h
  both_kept false s x h = h

  pub guard-Forwards :
      (test : Parts × BufferedBody E → Bool) (s : Parts × BufferedBody E)
      (r : PredicateResult (Parts × BufferedBody E))
      → Forwards s r
      → Forwards s (guard test r)
  unfolding guard
  guard-Forwards test s (cacheable x) h = both_kept (test x) s x h
  guard-Forwards test s (non_cacheable x) h = h

  pub neutral-IsClear : IsClear {E = E} {Parts = Parts} neutral
  unfolding neutral
  neutral-IsClear s = self-Forwards s

  or_result :
      (q : Predicate (Parts × BufferedBody E)) (s : Parts × BufferedBody E)
      (r : PredicateResult (Parts × BufferedBody E))
      → IsClear q
      → Forwards s r
      → Forwards s (on_non_cacheable r q)
  or_result q s (cacheable x) clear h = h
  or_result q s (non_cacheable x) clear h = Forwards-trans s x (q x) h (clear x)

  pub or-IsClear :
      (p q : Predicate (Parts × BufferedBody E)) → IsClear p → IsClear q → IsClear (or_ p q)
  unfolding or_
  or-IsClear p q h k s = or_result q s (p s) k (h s)

  not_result :
      (s : Parts × BufferedBody E) (r : PredicateResult (Parts × BufferedBody E))
      → Forwards s r
      → Forwards s (flip r)
  not_result s (cacheable x) h = h
  not_result s (non_cacheable x) h = h

  pub not-IsClear : (p : Predicate (Parts × BufferedBody E)) → IsClear p → IsClear (not_ p)
  unfolding not_
  not-IsClear p h s = not_result s (p s) (h s)
