-- ===== src/Policies/Timeouts.antt =====
-- Timeout resolution: who wins, and the deadline as a bound.
use dbkit_sql.Prelude.{
  ℕ, ◌+◌, ◌≤◌, Option, none, some, ◌≡◌, refl, ◌⊎◌, inl, inr, ℤ, pos_part, neg_part, sub_ℕ, min_ℤ,
  ◌≤ℤ◌, arith,
}
use dbkit_sql.Query.{Query}
use dbkit_sql.Policies.{resolve_timeout, remaining_deadline, effective_timeout, tighter}

-- The timeout is no longer than the bound, if there is a bound.
abbrev pub Within : Option ℤ → Option ℤ → Type 0
Within t none = Unit
Within none (some b) = ⊥
Within (some t) (some b) = t ≤ℤ b

tighter_lem :
    (a b : Option ℤ)
    → Within (tighter a b) a × Within (tighter a b) b × ((tighter a b ≡ a) ⊎ (tighter a b ≡ b))
tighter_lem none none = (tt, tt, inl refl)
tighter_lem none (some b) = (tt, omega arith, inr refl)
tighter_lem (some a) none = (omega arith, tt, inl refl)
tighter_lem (some a) (some b) = ground arith

-- The effective timeout is the tighter of the resolved timeout and the time left until the deadline:
-- it passes neither, it is one of the two, and it is missing only if both are.
pub effective_timeout-tightest :
    (call : Option ℤ) (query : Option Query) (default : Option ℤ) (deadline : Option ℕ) (now : ℕ)
    → let t = effective_timeout call query default deadline now in
      let base = resolve_timeout call query default in
      let left = remaining_deadline deadline now in
      Within t base × Within t left × ((t ≡ base) ⊎ (t ≡ left))
unfolding effective_timeout
effective_timeout-tightest call query default deadline now =
    tighter_lem (resolve_timeout call query default) (remaining_deadline deadline now)

capped :
    (base : Option ℤ) (deadline now : ℕ)
    → (t : ℤ) × (tighter base (some (sub_ℕ deadline now)) ≡ some t)
      × (now + pos_part t ≤ deadline + neg_part t)
capped none deadline now = (sub_ℕ deadline now, refl, ground arith)
capped (some b) deadline now = (min_ℤ b (sub_ℕ deadline now), refl, ground arith)

-- With a deadline there is always a timeout, and it does not go past the deadline.
pub effective_timeout-deadline :
    (call : Option ℤ) (query : Option Query) (default : Option ℤ) (deadline now : ℕ)
    → (t : ℤ) × (effective_timeout call query default (some deadline) now ≡ some t)
      × (now + pos_part t ≤ deadline + neg_part t)
unfolding effective_timeout
effective_timeout-deadline call query default deadline now =
    capped (resolve_timeout call query default) deadline now
