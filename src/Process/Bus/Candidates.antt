-- ===== src/Process/Bus/Candidates.antt =====
-- Which id `extractTaskUUID` finds.
use shortcut.Prelude.{
  Option, String, List, [], ◌∷◌, ◌++◌, none, some, ◌≡◌, refl, ap, ◌∙◌, All, Option-cases, inl, inr,
}
use shortcut.Runtime.{Env, Uuid, Value, XMessage}
use shortcut.Process.Bus.Ids.{candidates, candidate_id, first_candidate, extract_task_uuid}

module _ (env : Env) (values : List (String × Value)) where
  -- The keys before `key` give no id, and `key` gives `u`.
  abbrev pub FirstAt : List String → Uuid → Type 0
  FirstAt keys u =
      (before : List String) × (key : String) × (after : List String) × (keys
        ≡ before ++ key ∷ after)
      × All (λ k. candidate_id env values k ≡ none) before
      × (candidate_id env values key ≡ some u)

  first_candidate-some :
      (keys : List String) (u : Uuid) → first_candidate env values keys ≡ some u → FirstAt keys u
  unfolding first_candidate
  first_candidate-some [] u h = absurd (cc)
  first_candidate-some (k ∷ ks) u h = elim (Option-cases (candidate_id env values k)) [
    | inl miss ↦
        let (before, key, after, split, missed, hit) = first_candidate-some ks u (rw miss at h) in
        (k ∷ before, key, after, ap (λ l. k ∷ l) split, (miss, missed), hit)
    | inr (v, hit) ↦ ([], k, ks, refl, tt, hit ∙ (rw hit at h))
  ]

  first_candidate-none :
      (keys : List String)
      → first_candidate env values keys ≡ none
      → All (λ k. candidate_id env values k ≡ none) keys
  unfolding first_candidate
  first_candidate-none [] h = tt
  first_candidate-none (k ∷ ks) h = elim (Option-cases (candidate_id env values k)) [
    | inl miss ↦ (miss, first_candidate-none ks (rw miss at h))
    | inr (v, hit) ↦ absurd (cc (rw hit at h))
  ]

-- What an answer of `extractTaskUUID` says of the fields of a message.
abbrev pub Finds : Env → List (String × Value) → Option Uuid → Type 0
Finds env values none = All (λ k. candidate_id env values k ≡ none) candidates
Finds env values (some u) = FirstAt env values candidates u

-- An id that is found is the one of the first candidate key that holds a text that parses, in the
-- order of the list. No id is found only if no candidate key holds one.
pub extract_task_uuid_first :
    (env : Env) (m : XMessage) → Finds env m.values (extract_task_uuid env m)
unfolding extract_task_uuid
extract_task_uuid_first env m = elim (Option-cases (first_candidate env m.values candidates)) [
  | inl h ↦ rw h (first_candidate-none env m.values candidates h)
  | inr (u, h) ↦ rw h (first_candidate-some env m.values candidates u h)
]
