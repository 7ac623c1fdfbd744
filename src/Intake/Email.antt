-- ===== src/Intake/Email.antt =====
-- The shape that an address must have: `_EMAIL_SANITY`, `^[^@\s]{1,64}@[^@\s]{3,255}$`.
use jp_adopt_core.Prelude.{ℕ, Bool, true, not, [], ◌∷◌, if◌then◌else◌, ◌==◌, leb, ◌&&◌, length}
use jp_adopt_core.Text.{Text, Unicode, before}

-- The text behind the first `sep`: `text.split(sep, 1)[1]`, or nothing where there is none.
abbrev pub after : ℕ → Text → Text
after sep [] = []
after sep (c ∷ cs) = if c == sep then cs else after sep cs

-- `[^@\s]*`
abbrev pub is_plain : Unicode → Text → Bool
is_plain u [] = true
is_plain u (c ∷ cs) = not (c == 64) && not (u.is_space c) && is_plain u cs

-- `$` stands before a newline that ends the text, too.
abbrev pub drop_newline : Text → Text
drop_newline [] = []
drop_newline (c ∷ []) = if c == 10 then [] else c ∷ []
drop_newline (c ∷ d ∷ ds) = c ∷ drop_newline (d ∷ ds)

abbrev pub within : ℕ → ℕ → Text → Bool
within lo hi t = leb lo (length t) && leb (length t) hi

-- `_EMAIL_SANITY.match`: the local part ends at the first `@`, since it has none itself.
unfoldable pub email_sanity : Unicode → Text → Bool
email_sanity u t =
    let domain = drop_newline (after 64 t) in
    is_plain u (before 64 t)
    && within 1 64 (before 64 t)
    && is_plain u domain
    && within 3 255 domain
