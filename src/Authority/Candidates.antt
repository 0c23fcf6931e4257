-- ===== src/Authority/Candidates.antt =====
-- The agents among whom a supervisor is chosen.
use megacorps.Prelude.{
  same, ℕ, ◌≡◌, refl, ap, subst, ◌∙◌, Bool, true, false, Option, none, some, List, [], ◌∷◌, ◌&&◌,
  any-Any, find, keep, Any, Any-map_prop, ◌==◌, ==→≡, arith, Bool-cases, inl, inr,
}
use mathlib.Core.Option.{some-injective, none-ne-some}
use megacorps.Authority.Roles.{AuthorityAgent, AuthorityPosition, is_not_off}
use megacorps.Authority.Organization.{
  OrganizationError, supervisor_ineligible, supervisor_choice_required, OrganizationInput,
  Directory, Supervisor, no_supervisor, supervisor, is_member, is_working, is_candidate, holders,
  is_among, only_one, select_supervisor, staff_supervisor,
}

-- The agent with the identifier is in the directory and has the property.
abbrev pub HasAgent : (AuthorityAgent → Bool) → List AuthorityAgent → ℕ → Type 0
HasAgent p agents id = Any (λ (a : AuthorityAgent). (a.id ≡ id) × (p a ≡ true)) agents

pub find-HasAgent :
    (p : AuthorityAgent → Bool) (agents : List AuthorityAgent) (a : AuthorityAgent)
    → find p agents ≡ some a
    → HasAgent p agents a.id
find-HasAgent p [] a h = ground arith
find-HasAgent p (x ∷ rest) a h = elim (Bool-cases (p x)) [
  | inl e ↦ inl (ap (λ (y : AuthorityAgent). y.id) (some-injective x a (rw e at h)), e)
  | inr e ↦ inr (find-HasAgent p rest a (rw e at h))
]

keep-HasAgent :
    (p q : AuthorityAgent → Bool) (agents : List AuthorityAgent) (id : ℕ)
    → HasAgent q (keep p agents) id
    → HasAgent p agents id
keep-HasAgent p q [] id h = h
keep-HasAgent p q (x ∷ rest) id h = elim (Bool-cases (p x)) [
  | inl e ↦
      let kept : HasAgent q (x ∷ keep p rest) id = rw e at h in
      elim kept [ inl here ↦ inl (here.0, e) | inr there ↦ inr (keep-HasAgent p q rest id there) ]
  | inr e ↦ inr (keep-HasAgent p q rest id (rw e at h))
]

-- Another agent of the company, at work, who holds the managing position.
pub record IsEligible (company : ℕ) (value : OrganizationInput) (manager : AuthorityPosition)
    (a : AuthorityAgent) : Type 0 where
  pub of_company : (a.company_id == company) ≡ true
  pub present : a.is_deleted ≡ false
  pub active : is_not_off a.is_active ≡ true
  pub holds : same a.position_id (some manager.id) ≡ true
  pub other : same (some a.id) value.id ≡ false

is_candidate-IsEligible :
    (company : ℕ) (value : OrganizationInput) (manager : AuthorityPosition) (a : AuthorityAgent)
    → is_candidate company value manager.id a ≡ true
    → IsEligible company value manager a
unfolding is_candidate is_member
is_candidate-IsEligible company value manager a h = record {
  of_company = ground arith;
  present = ground arith;
  active = ground arith;
  holds = ground arith;
  other = ground arith;
}

pub resolved-apart : (e : OrganizationError) (boss : Option ℕ) → ¬ no_supervisor e ≡ supervisor boss
resolved-apart e boss h = ground arith

abbrev pub boss_in : Supervisor → Option ℕ
boss_in (no_supervisor e) = none
boss_in (supervisor b) = b

abbrev is_any : AuthorityAgent → Bool
is_any a = true

any-HasAgent :
    (agents : List AuthorityAgent) (id : ℕ)
    → is_among (some id) agents ≡ true
    → HasAgent is_any agents id
any-HasAgent agents id h =
    Any-map_prop (λ (a : AuthorityAgent). (a.id == id) ≡ true)
      (λ (a : AuthorityAgent). (a.id ≡ id) × (is_any a ≡ true)) agents
      (λ a e. (==→≡ a.id id e, refl)) ((any-Any (λ (a : AuthorityAgent). a.id == id) agents).0 h)

only_one-HasAgent :
    (agents : List AuthorityAgent) (boss : Option ℕ) (id : ℕ)
    → only_one agents ≡ supervisor boss
    → boss ≡ some id
    → HasAgent is_any agents id
only_one-HasAgent [] boss id h e = absurd (none-ne-some id (ap boss_in h ∙ e))
only_one-HasAgent (a ∷ []) boss id h e = inl (some-injective a.id id (ap boss_in h ∙ e), refl)
only_one-HasAgent (a ∷ b ∷ rest) boss id h e =
    absurd (resolved-apart supervisor_choice_required boss h)

select_supervisor-HasAgent :
    (value : OrganizationInput) (agents : List AuthorityAgent) (boss : Option ℕ) (id : ℕ)
    → select_supervisor value agents ≡ supervisor boss
    → boss ≡ some id
    → HasAgent is_any agents id
unfolding select_supervisor
select_supervisor-HasAgent value agents boss id h e =
    elim (Bool-cases (value.auto_select && is_working value)) [
      | inl selects ↦ only_one-HasAgent agents boss id (rw selects at h) e
      | inr leaves ↦ absurd (none-ne-some id (ap boss_in (rw leaves at h) ∙ e))
    ]

pub staff_supervisor-HasAgent :
    (value : OrganizationInput) (agents : List AuthorityAgent) (given boss : Option ℕ) (id : ℕ)
    → staff_supervisor value agents given ≡ supervisor boss
    → boss ≡ some id
    → HasAgent is_any agents id
unfolding staff_supervisor select_supervisor is_working
staff_supervisor-HasAgent value agents none boss id h e =
    select_supervisor-HasAgent value agents boss id h e
staff_supervisor-HasAgent value agents (some b) boss id h e =
    elim (Bool-cases (is_among (some b) agents)) [
      | inl eligible ↦
          subst (HasAgent is_any agents) (some-injective b id (ap boss_in (rw eligible at h) ∙ e))
            (any-HasAgent agents b eligible)
      | inr other ↦ elim (Bool-cases value.reset_ineligible_boss) [
        | inl reset ↦ select_supervisor-HasAgent value agents boss id (rw (other, reset) at h) e
        | inr strict ↦ absurd (resolved-apart supervisor_ineligible boss (rw (other, strict) at h))
      ]
    ]

pub holders-IsEligible :
    (dir : Directory) (company : ℕ) (value : OrganizationInput) (found : Option AuthorityPosition)
    (id : ℕ)
    → HasAgent is_any (holders dir company value found) id
    → (manager : AuthorityPosition) × ((found ≡ some manager)
        × Any (λ a. (a.id ≡ id) × IsEligible company value manager a) dir.agents)
holders-IsEligible dir company value none id h = absurd h
holders-IsEligible dir company value (some manager) id h =
    let candidate = is_candidate company value manager.id in
    elim (Bool-cases (is_not_off manager.is_active)) [
      | inl active ↦ (
        manager,
        (
          refl,
          Any-map_prop (λ a. (a.id ≡ id) × (candidate a ≡ true))
              (λ a. (a.id ≡ id) × IsEligible company value manager a) dir.agents
              (λ a e. (e.0, is_candidate-IsEligible company value manager a e.1))
              (keep-HasAgent candidate is_any dir.agents id (rw active at h)),
        ),
      )
      | inr off ↦ absurd (rw off at h)
    ]
