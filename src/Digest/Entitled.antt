-- ===== src/Digest/Entitled.antt =====
-- Who is told of which matches.
use jp_adopt_core.Prelude.{
  String, in_texts, false, refl, ◌==◌, filter, ℕ, ◌≡◌, refl, ◌⊎◌, ◌≤◌, ◌<◌, true, none, some, List,
  filter, All,
}
use jp_adopt_core.Text.{Text}
use jp_adopt_core.Matching.Rows.{recommended, accepted}
use jp_adopt_core.Digest.Rows.{StaffProfile, DigestMatch, DigestRecipientPlan, Tables}
use jp_adopt_core.Digest.Addresses.{IsStaff, IsMember}
use jp_adopt_core.Digest.Addresses.{Any}
use jp_adopt_core.Digest.Reached.{IsPlan}
use jp_adopt_core.Digest.Plans.{
  staff_digest_role_names, find_profile, is_nil, load_matches_in_window,
}

abbrev pub IsCurrent : ℕ → ℕ → DigestMatch → Type 0
IsCurrent w w' m =
    ((m.status ≡ recommended) ⊎ (m.status ≡ accepted))
    × (w ≤ m.recommended_at)
    × (m.recommended_at < w')

-- A plan of matches of the window: staff get all that were loaded, a member of an organisation all
-- loaded ones of it.
abbrev pub IsEntitled : Tables → ℕ → ℕ → DigestRecipientPlan → Type 0
IsEntitled t w w' plan =
    let loaded = load_matches_in_window t w w' t.matches in
    All (IsCurrent w w') plan.matches
    × ((IsStaff t plan.recipient_address × (plan.matches ≡ loaded))
        ⊎ ((o : ℕ) × IsMember t o plan.recipient_address
            × (plan.matches ≡ filter (λ m. m.facilitator_org_id == o) loaded)))

-- A holder of a role has no role of the digest, or no active, opted-in profile, or a profile without
-- an address, or a plan with all these matches.
abbrev pub IsReached :
    Tables → List DigestMatch → List DigestRecipientPlan → String × String → Type 0
IsReached t ms plans (sub, role) =
    (in_texts role staff_digest_role_names ≡ false)
    ⊎ (find_profile sub t.profiles ≡ none)
    ⊎ ((p : StaffProfile) × (find_profile sub t.profiles ≡ some p)
        × ((is_nil p.email_normalized ≡ true) ⊎ Any (IsPlan p.email_normalized ms) plans))

-- A plan of these matches, of which the loaded ones are a part.
abbrev IsFair : Tables → ℕ → ℕ → List DigestMatch → DigestRecipientPlan → Type 0
IsFair t w w' ms plan =
    All (IsCurrent w w') plan.matches
    × ((IsStaff t plan.recipient_address × (plan.matches ≡ ms))
        ⊎ ((o : ℕ) × IsMember t o plan.recipient_address
            × (plan.matches ≡ filter (λ m. m.facilitator_org_id == o) ms)))
