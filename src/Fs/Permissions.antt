-- ===== src/Fs/Permissions.antt =====
-- fs/permissions.go, and the open modes of proto/open.go.
pub mod Bits
use go9p.Base.{
  ℕ, ◌+◌, ◌/◌, ◌%◌, ◌^◌, List, Bool, true, false, ◌&&◌, not, ◌==◌, if◌then◌else◌, bit_and,
  same_text,
}
use go9p.Proto.Stat.{Stat}

abbrev pub oread : ℕ
oread = 0

abbrev pub owrite : ℕ
owrite = 1

abbrev pub ordwr : ℕ
ordwr = 2

abbrev pub oexec : ℕ
oexec = 3

-- proto.None
abbrev pub omode_none : ℕ
omode_none = 4

abbrev pub otrunc : ℕ
otrunc = 0x10

pub data Relation : Type 0 where
  ugo_user ugo_group ugo_other : Relation

unfoldable pub user_in_group : List ℕ → List ℕ → Bool
user_in_group user group = same_text user group

-- The node is given by its Stat.
unfoldable pub user_relation : List ℕ → Stat → Relation
unfolding user_in_group
user_relation user st =
    if same_text user st.uid
    then ugo_user
    else if user_in_group user st.gid
    then ugo_group
    else ugo_other

unfoldable pub omode_permits : ℕ → ℕ → Bool
omode_permits perm omode =
    if omode == oread
    then not (bit_and perm 0x4 == 0)
    else if omode == owrite
    then not (bit_and perm 0x2 == 0)
    else if omode == ordwr
    then not (bit_and perm 0x2 == 0) && not (bit_and perm 0x4 == 0)
    else if omode == oexec
    then not (bit_and perm 0x01 == 0)
    else false

-- `uint8(Mode >> k) & 0x07`
abbrev mode_bits : ℕ → ℕ → ℕ
mode_bits mode k = bit_and (mode / 2 ^ k % 256) 0x07

abbrev permits_as : Relation → ℕ → ℕ → Bool
permits_as ugo_user mode omode = omode_permits (mode_bits mode 6) omode
permits_as ugo_group mode omode = omode_permits (mode_bits mode 3) omode
permits_as ugo_other mode omode = omode_permits (mode_bits mode 0) omode

unfoldable pub open_permission : Stat → List ℕ → ℕ → Bool
unfolding user_relation omode_permits
open_permission st user omode = permits_as (user_relation user st) st.mode omode
