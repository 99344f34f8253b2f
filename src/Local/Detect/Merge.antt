-- ===== src/Local/Detect/Merge.antt =====
-- local/detect.py: the samples that are kept of each file.
use civ4_turn_relay.Prelude.{
  get_last?, text_eq-ne, sym, ◌≤◌, ◌≡◌, ◌≢◌, refl, ◌∙◌, ap, arith, length, Bool, Bool-cases, inl,
  inr, true, not, List, [], ◌∷◌, ◌++◌, Text, text_eq, text_eq_iff,
}
use mathlib.Core.List.{append-nil}
use civ4_turn_relay.Domain.Paths.{all_of}
use civ4_turn_relay.Local.Records.Types.{StabilityObservation}
use civ4_turn_relay.Local.Detect.Samples.{
  Session, Sample, filter, filter_session_observations, at_path, observations_for_path,
  observation_of, prior_samples, differs, bounded, merge_observations,
}

filter-append :
    (test : StabilityObservation → Bool) (xs ys : List StabilityObservation)
    → filter test (xs ++ ys) ≡ filter test xs ++ filter test ys
unfolding filter
filter-append test [] ys = refl
filter-append test (x ∷ xs) ys = elim (Bool-cases (test x)) [
  | inl t ↦ rw t (ap (λ rest. x ∷ rest) (filter-append test xs ys))
  | inr f ↦ rw f (filter-append test xs ys)
]

filter-none :
    (path : Text) (os : List StabilityObservation)
    → observations_for_path (filter (λ o. not (at_path path o)) os) path ≡ []
unfolding filter observations_for_path
filter-none path [] = refl
filter-none path (o ∷ os) = elim (Bool-cases (text_eq o.path path)) [
  | inl t ↦ rw t (filter-none path os)
  | inr f ↦ rw f (rw f (filter-none path os))
]

filter-other :
    (path other : Text) (os : List StabilityObservation)
    → path ≢ other
    → observations_for_path (filter (λ o. not (at_path path o)) os) other
      ≡ observations_for_path os other
unfolding filter observations_for_path
filter-other path other [] n = refl
filter-other path other (o ∷ os) n = elim (Bool-cases (text_eq o.path path)) [
  | inl t ↦
      rw (t, text_eq-ne o.path other (λ e. n (sym ((text_eq_iff o.path path).0 t) ∙ e)))
        (filter-other path other os n)
  | inr f ↦ rw f (elim (Bool-cases (text_eq o.path other)) [
    | inl t ↦ rw t (ap (λ rest. o ∷ rest) (filter-other path other os n))
    | inr g ↦ rw g (filter-other path other os n)
  ])
]

length-bounded :
    (os : List StabilityObservation) (new : StabilityObservation) (path : Text)
    → length (observations_for_path (bounded os new) path) ≤ 2
unfolding bounded observations_for_path filter
length-bounded [] new path = ground arith
length-bounded (o ∷ os) new path = ground arith

samples-path :
    (path : Text) (os : List StabilityObservation)
    → all_of (at_path path) (observations_for_path os path) ≡ true
unfolding observations_for_path filter all_of
samples-path path [] = refl
samples-path path (o ∷ os) = elim (Bool-cases (text_eq o.path path)) [
  | inl t ↦ rw t (rw t (samples-path path os))
  | inr f ↦ rw f (samples-path path os)
]

bounded-other :
    (path other : Text) (os : List StabilityObservation) (new : StabilityObservation)
    → path ≢ other
    → new.path ≡ path
    → all_of (at_path path) os ≡ true
    → observations_for_path (bounded os new) other ≡ []
unfolding bounded observations_for_path filter all_of
bounded-other path other [] new n e h = rw (text_eq-ne new.path other (λ f. n (sym e ∙ f))) refl
bounded-other path other (o ∷ os) new n e h =
    rw
      (
        text_eq-ne o.path other (λ f. n (sym ((text_eq_iff o.path path).0 (ground arith)) ∙ f)),
        text_eq-ne new.path other (λ f. n (sym e ∙ f)),
      )
      refl

prior-path :
    (x : Sample) (os : List StabilityObservation)
    → all_of (at_path x.path) (prior_samples x (observations_for_path os x.path)) ≡ true
unfolding prior_samples all_of
prior-path x os = elim (Bool-cases (differs x (get_last? (observations_for_path os x.path)))) [
  | inl d ↦ rw d refl
  | inr s ↦ rw s (samples-path x.path os)
]

-- What `_merge_observations` keeps of a play session: of the file that was seen at most two samples,
-- and of every other file exactly the samples that it had in this session.
pub merge_observations-bounded :
    (s : Session) (x : Sample) (existing : List StabilityObservation) (other : Text)
    → x.path ≢ other
    → (length (observations_for_path (merge_observations s x existing) x.path) ≤ 2)
      × (observations_for_path (merge_observations s x existing) other
          ≡ observations_for_path (filter_session_observations s existing) other)
unfolding merge_observations
merge_observations-bounded s x existing other n = (own, others)
  where
    scoped : List StabilityObservation
    scoped = filter_session_observations s existing

    new : List StabilityObservation
    new = bounded (prior_samples x (observations_for_path scoped x.path)) (observation_of s x)

    split_of :
        (path : Text)
        → observations_for_path (filter (λ o. not (at_path x.path o)) scoped ++ new) path
          ≡ observations_for_path (filter (λ o. not (at_path x.path o)) scoped) path
            ++ observations_for_path new path
    split_of path = unfold observations_for_path in filter-append (at_path path) _ new

    own :
        length (observations_for_path (filter (λ o. not (at_path x.path o)) scoped ++ new) x.path)
        ≤ 2
    own = rw (split_of x.path, filter-none x.path scoped) (length-bounded _ _ x.path)

    others :
        observations_for_path (filter (λ o. not (at_path x.path o)) scoped ++ new) other
        ≡ observations_for_path scoped other
    others =
        rw
          (
            split_of other,
            filter-other x.path other scoped n,
            bounded-other x.path other _ (observation_of s x) n (unfold observation_of in refl)
                (prior-path x scoped),
          )
          (append-nil _)
