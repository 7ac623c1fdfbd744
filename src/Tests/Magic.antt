-- ===== src/Tests/Magic.antt =====
-- Links for a concrete address; the lower-casing, the hash and the JWT leave texts as they are.
use jp_adopt_core.Prelude.{◌==◌, ◌≡◌, ◌↔◌, refl, none, some, [], ◌∷◌, arith}
use jp_adopt_core.Text.{Text, Unicode, codes, strip}
use jp_adopt_core.Http.{HttpError, done, fail}
use jp_adopt_core.Magic.Rows.{Vault, Settings, normalize_email, find_identity}
use jp_adopt_core.Magic.Link.{
  Fresh, Click, new_token, access_token, request_magic_link, claim_magic_link, request_link,
  claim_link,
}
use jp_adopt_core.Magic.Limit.{IsLimited, request_link-IsLimited}
use jp_adopt_core.Magic.Claim.{IsClaimable, signs_in, claim_link_succeeds}
use jp_adopt_core.Magic.Once.{start, next, requests, claim_once}
use jp_adopt_core.Magic.RoundTrip.{request_then_claim}

abbrev plain : Unicode
plain = record { is_space = λ c. c == 32; lower = λ t. t; casefold = λ t. t }

abbrev cfg : Settings
cfg = record {
  unicode = plain;
  magic_link_signing_key = codes "key";
  magic_link_issuer = codes "adopt";
  sha256 = λ t. t;
  jwt_encode = λ c key. c.email;
}

abbrev fresh : Fresh
fresh = record { raw = codes "r1"; token_id = 1; request_id = 2; counted_at = 9000; now = 9001 }

abbrev click : Click
click = record {
  raw_token = codes "r1";
  click_ip = none;
  user_agent = none;
  now = 9100;
  identity_id = 3;
  linked_at = 9100;
}

abbrev empty : Vault
empty = record { tokens = []; requests = []; identities = [] }

abbrev address : Text
address = codes "a@b.c "

abbrev issued : Vault
issued = record {
  tokens = new_token cfg fresh (codes "a@b.c") none ∷ [];
  requests = record { id = 2; email_normalized = codes "a@b.c"; requested_at = 9001 } ∷ [];
  identities = [];
}

request_ok : (request_link cfg fresh address none empty).0 ≡ done (some (codes "r1"))
unfolding request_link request_magic_link normalize_email strip
request_ok = refl

request_writes : (request_link cfg fresh address none empty).1 ≡ issued
unfolding request_link request_magic_link normalize_email strip
request_writes = refl

claim_ok : (claim_link cfg click issued).0 ≡ done (codes "a@b.c")
unfolding claim_link claim_magic_link normalize_email strip
claim_ok = refl

request_link-IsLimited_example : IsLimited (request_link cfg fresh address none empty).1.requests
request_link-IsLimited_example =
    request_link-IsLimited cfg fresh address none empty (omega arith) (λ email end. omega arith)

claim_link_succeeds_example :
    ((claim_link cfg click issued).0 ≡ done (codes "a@b.c"))
    ↔ IsClaimable cfg click issued (codes "a@b.c")
claim_link_succeeds_example = claim_link_succeeds cfg click issued (codes "a@b.c")

claim_once_example :
    let v = (claim_link cfg click issued).1 in
    let u = (request_link cfg (record fresh { raw = codes "r2" }) address none v).1 in
    (e : HttpError) × ((claim_link cfg click u).0 ≡ fail e) × (e.status_code ≡ 410)
claim_once_example =
    let v = (claim_link cfg click issued).1 in
    let other : Fresh = record fresh { raw = codes "r2" } in
    claim_once cfg click click issued (request_link cfg other address none v).1 (codes "a@b.c")
      claim_ok (next start (requests other address none)) refl

request_then_claim_example :
    let t = new_token cfg fresh (strip plain address) none in
    (claim_link cfg click (request_link cfg fresh address none empty).1).0
    ≡ done (
        access_token cfg click (
          signs_in click t
            (find_identity (normalize_email plain (strip plain address)) empty.identities)))
request_then_claim_example =
    request_then_claim cfg fresh address none empty (codes "r1") click request_ok refl (omega arith)
      refl
