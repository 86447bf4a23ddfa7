-- ===== src/Lock/Chonk.antt =====
-- internal/domain/tka.go: the table of update messages of one tailnet, and the methods by which
-- tailscale.com/tka reads and writes it.
use ionskale.Prelude.{
  String, List, [], ◌∷◌, ◌++◌, Bool, not, ◌&&◌, Option, none, some, str_eq, any, all, keep,
  if◌then◌else◌,
}
use ionskale.Machine.{Bytes}

pub record TkaAum : Type 0 where
  pub hash : String
  pub prev_hash : String
  pub content : Bytes

-- The rows of one tailnet, with the column of its state row that these methods write.
pub record Chonk : Type 0 where
  pub rows : List TkaAum
  pub last_active_ancestor : String

abbrev pub empty_chonk : Chonk
empty_chonk = record { rows = []; last_active_ancestor = "" }

-- `Take`: the row of a hash.
unfoldable pub find_row : String → List TkaAum → Option TkaAum
find_row h [] = none
find_row h (r ∷ rs) = if str_eq r.hash h then some r else find_row h rs

-- The stored bytes of the message with a hash; `none` is `os.ErrNotExist`.
unfoldable pub aum : Chonk → String → Option Bytes
unfolding find_row
aum c h = elim (find_row h c.rows) [ none ↦ none | some r ↦ some r.content ]

unfoldable pub child_aums : Chonk → String → List TkaAum
child_aums c prev = keep (λ r. str_eq r.prev_hash prev) c.rows

abbrev is_taken : List TkaAum → TkaAum → Bool
is_taken rows r = any (λ s. str_eq s.hash r.hash) rows

-- `OnConflict{DoNothing}`: a row whose hash is stored is left out.
insert_rows : List TkaAum → List TkaAum → List TkaAum
insert_rows rows [] = rows
insert_rows rows (r ∷ rs) = insert_rows (if is_taken rows r then rows else rows ++ r ∷ []) rs

unfoldable pub commit_verified_aums : Chonk → List TkaAum → Chonk
unfolding insert_rows
commit_verified_aums c updates = record c { rows = insert_rows c.rows updates }

-- The messages that no other message names as its predecessor.
unfoldable pub heads : Chonk → List TkaAum
heads c =
    keep (λ r. all (λ s. not (not (str_eq s.prev_hash "") && str_eq s.prev_hash r.hash)) c.rows)
      c.rows

unfoldable pub set_last_active_ancestor : Chonk → String → Chonk
set_last_active_ancestor c h = record c { last_active_ancestor = h }

unfoldable pub last_active_ancestor : Chonk → Option String
last_active_ancestor c =
    if str_eq c.last_active_ancestor "" then none else some c.last_active_ancestor
