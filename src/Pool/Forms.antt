-- ===== src/Pool/Forms.antt =====
-- What a step of server/net/ThreadPool.cpp did, by its result.
use cvcn.Common.{
  ℕ, zero, suc, ◌+◌, ◌-◌, ◌≡◌, refl, sym, ap, ◌∙◌, inl, inr, Bool, true, false, not, ◌&&◌, List, [],
  ◌∷◌, ◌++◌, Option, none, some, length, if◌then◌else◌, Option-cases,
}
use cvcn.Pool.{Pool, is_empty_list, is_idle, take_task, leave, remove_at, finish_task}

-- The pool after a worker took the task in front of `rest`, and after one was finished.
abbrev after_take : ℕ → List ℕ → Pool → Pool
after_take task rest p = record p {
  tasks = rest;
  in_flight = p.in_flight + 1;
  running = p.running ++ task ∷ [];
}

abbrev after_finish : List ℕ → Pool → Pool
after_finish rest p = record p { in_flight = p.in_flight - 1; running = rest }

take-form_of :
    (idle : Bool) (tasks : List ℕ) (p p' : Pool)
    → (if not idle
        then none
        else elim tasks [ [] ↦ none | task ∷ rest ↦ some (after_take task rest p) ])
      ≡ some p'
    → (idle ≡ true)
      × ((task : ℕ) × (rest : List ℕ) × (tasks ≡ task ∷ rest) × (p' ≡ after_take task rest p))
take-form_of false tasks p p' h = absurd (cc)
take-form_of true [] p p' h = absurd (cc)
take-form_of true (task ∷ rest) p p' h = (refl, (task, rest, refl, cc))

pub take-form :
    (p p' : Pool)
    → take_task p ≡ some p'
    → (is_idle p ≡ true)
      × ((task : ℕ) × (rest : List ℕ) × (p.tasks ≡ task ∷ rest) × (p' ≡ after_take task rest p))
unfolding take_task
take-form p p' h = take-form_of (is_idle p) p.tasks p p' h

pub finish-form :
    (i : ℕ) (p p' : Pool)
    → finish_task i p ≡ some p'
    → (task : ℕ) × (rest : List ℕ) × (remove_at i p.running ≡ some (task, rest))
      × (p' ≡ after_finish rest p)
unfolding finish_task
finish-form i p p' h = elim (Option-cases (remove_at i p.running)) [
  | inl e ↦ absurd (cc)
  | inr ((task, rest), e) ↦ (task, rest, e, cc)
]

leave-form_of :
    (idle stopping : Bool) (tasks : List ℕ) (p p' : Pool)
    → (if idle && (stopping && is_empty_list tasks)
        then some (record p { alive = p.alive - 1 })
        else none)
      ≡ some p'
    → (idle ≡ true) × (stopping ≡ true) × (tasks ≡ []) × (p' ≡ record p { alive = p.alive - 1 })
leave-form_of false stopping tasks p p' h = absurd (cc)
leave-form_of true false tasks p p' h = absurd (cc)
leave-form_of true true (t ∷ ts) p p' h = absurd (cc)
leave-form_of true true [] p p' h = (refl, refl, refl, cc)

pub leave-form :
    (p p' : Pool)
    → leave p ≡ some p'
    → (is_idle p ≡ true)
      × (p.stopping ≡ true)
      × (p.tasks ≡ [])
      × (p' ≡ record p { alive = p.alive - 1 })
unfolding leave
leave-form p p' h = leave-form_of (is_idle p) p.stopping p.tasks p p' h

abbrev rest_of : Option (ℕ × List ℕ) → List ℕ
rest_of none = []
rest_of (some (task, rest)) = rest

pub length-remove_at :
    (i task : ℕ) (ts rest : List ℕ)
    → remove_at i ts ≡ some (task, rest)
    → length ts ≡ suc (length rest)
unfolding remove_at
length-remove_at i task [] rest h = absurd (cc)
length-remove_at zero task (t ∷ ts) rest h = ap (λ o. suc (length (rest_of o))) h
length-remove_at (suc i) task (t ∷ ts) rest h = elim (Option-cases (remove_at i ts)) [
  | inl e ↦ absurd (cc)
  | inr ((found, others), e) ↦
      let front : Option (ℕ × List ℕ) → Option (ℕ × List ℕ) =
        λ o. elim o [ none ↦ none | some (a, r) ↦ some (a, t ∷ r) ] in
      ap suc (length-remove_at i found ts others e)
      ∙ ap (λ o. suc (length (rest_of o))) (sym (ap front e) ∙ h)
]

pub some-injective : {A : Type 0} (a b : A) → some a ≡ some b → a ≡ b
some-injective a b h = cc
