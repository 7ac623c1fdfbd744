-- ===== src/ManualContacts/Laws.antt =====
-- What a contact that staff adds with an organisation gets.
use jp_adopt_core.Prelude.{ℕ, String, ◌≡◌, All, true, Option, none, some, List, [], ◌∷◌, ◌++◌, map}
use jp_adopt_core.Text.{Unicode}
use jp_adopt_core.Http.After.{After}
use jp_adopt_core.Matching.Rows.{FacilitatingOrg, AdopterInterest, undecided, recommended}
use jp_adopt_core.Matching.Process.{find_open}
use jp_adopt_core.Decide.Rows.{Store, Actor, find_org}
use jp_adopt_core.ManualContacts.{
  ManualContactCreate, ManualContactResponse, Fresh, clean_codes, selections,
}

-- The interests of a contact for the codes of a request, or for none.
abbrev pub IsInterest : ℕ → Option String → AdopterInterest → Type 0
IsInterest contact_id notes x = (x.contact_id ≡ contact_id) × (x.notes ≡ notes)

module _ {F : Type 0} (u : Unicode) (strip : String → String) (fpgs : List String) (fresh : Fresh)
    (actor : Actor) (body : ManualContactCreate) (i : ℕ) (before : Store F)
    (named : body.facilitator_org_id ≡ some i) (party : body.is_adopter ≡ true)
    (new : find_open (fresh.interest_id 0) before.tables.matches ≡ none) where
  -- The tables of matching are as before.
  abbrev SameTables : Store F → Type 0
  SameTables s = s.tables ≡ before.tables

  -- The codes that the request asks for: nothing stands for an adopter of no people group.
  abbrev pub asked : List (Option String)
  asked = selections (clean_codes strip [] body.fpg_people_id3s)

  -- The rows that are added to the interests of a contact, with these ids.
  abbrev pub Adds : ℕ → List ℕ → Store F → Type 0
  Adds contact_id ids s =
      (rows : List AdopterInterest) × (s.tables.interests ≡ before.tables.interests ++ rows)
      × (map (λ (x : AdopterInterest). x.id) rows ≡ ids)
      × (map (λ (x : AdopterInterest). x.people_id3) rows ≡ asked)
      × All (IsInterest contact_id body.notes) rows

  -- The interests and the match that the request adds, and that its organisation is active.
  abbrev pub IsAssigned : ManualContactResponse → Store F → Type 0
  IsAssigned r s =
      (r.match_id ≡ some fresh.match_id)
      × Adds r.contact_id r.interest_ids s
      × ((rest : List ℕ) × (r.interest_ids ≡ fresh.interest_id 0 ∷ rest))
      × ((o : FacilitatingOrg) × (find_org i before.tables.orgs ≡ some o)
          × (o.active ≡ true)
          × (s.tables.matches
              ≡ before.tables.matches
                ++ undecided fresh.match_id (fresh.interest_id 0) o.id recommended ∷ []))

  -- The organisation that was found to be active.
  abbrev IsNamed : Option FacilitatingOrg → Store F → Type 0
  IsNamed r s =
      (s ≡ before)
      × ((o : FacilitatingOrg) × (r ≡ some o)
          × (find_org i before.tables.orgs ≡ some o)
          × (o.active ≡ true))

  -- The interests are added, the first is a new one, and the matches are as before.
  abbrev HasFirst : ℕ → List ℕ → Store F → Type 0
  HasFirst contact_id ids s =
      (s.tables.matches ≡ before.tables.matches)
      × Adds contact_id ids s
      × ((rest : List ℕ) × (ids ≡ fresh.interest_id 0 ∷ rest))

  abbrev Placed : FacilitatingOrg → List AdopterInterest → Option ℕ → Store F → Type 0
  Placed o interests match_id s =
      (match_id ≡ some fresh.match_id)
      × (s.tables.interests ≡ interests)
      × (s.tables.matches
          ≡ before.tables.matches
            ++ undecided fresh.match_id (fresh.interest_id 0) o.id recommended ∷ [])
