-- ===== src/Fs/Permissions/Bits.antt =====
-- What the permission test of fs/permissions.go means: three octal digits of the mode.
use go9p.Base.{
  low_three, bit_zero, bit_one, bit_two, ℕ, ◌/◌, ◌%◌, ◌^◌, ◌<◌, List, Bool, false, ◌&&◌, ◌==◌,
  if◌then◌else◌, same_text, ◌≡◌, ap, ◌∙◌, arith,
}
use go9p.Proto.Stat.{Stat}
use go9p.Fs.Permissions.{
  oread, owrite, ordwr, oexec, Relation, ugo_user, ugo_group, ugo_other, user_relation,
  user_in_group, omode_permits, open_permission, permits_as,
}

-- The octal digit of the mode that the relation selects.
abbrev digit : Relation → ℕ → ℕ
digit ugo_user mode = mode / 64 % 8
digit ugo_group mode = mode / 8 % 8
digit ugo_other mode = mode % 8

-- The owner has the first octal digit of the permissions, the group the second, and all others the
-- last. A group is the user of its name.
abbrev pub user_digit : List ℕ → Stat → ℕ
user_digit user st =
    if same_text user st.uid
    then st.mode / 64 % 8
    else if same_text user st.gid
    then st.mode / 8 % 8
    else st.mode % 8

-- rwx: what a digit grants to each open mode.
abbrev pub grants : ℕ → ℕ → Bool
grants d omode =
    let readable = d / 4 == 1 in
    let writable = d / 2 % 2 == 1 in
    let executable = d % 2 == 1 in
    if omode == oread
    then readable
    else if omode == owrite
    then writable
    else if omode == ordwr
    then writable && readable
    else if omode == oexec
    then executable
    else false

omode_permits-grants : (d omode : ℕ) → d < 8 → omode_permits d omode ≡ grants d omode
unfolding omode_permits
omode_permits-grants d omode h = rw (bit_two d, bit_one d, bit_zero d) (ground arith)

digit-lt : (r : Relation) (mode : ℕ) → digit r mode < 8
digit-lt ugo_user mode = omega arith
digit-lt ugo_group mode = omega arith
digit-lt ugo_other mode = omega arith

permits_as-digit :
    (r : Relation) (mode omode : ℕ) → permits_as r mode omode ≡ omode_permits (digit r mode) omode
permits_as-digit ugo_user mode omode =
    ap (λ d. omode_permits d omode) (low_three (mode / 2 ^ 6 % 256) ∙ omega arith)
permits_as-digit ugo_group mode omode =
    ap (λ d. omode_permits d omode) (low_three (mode / 2 ^ 3 % 256) ∙ omega arith)
permits_as-digit ugo_other mode omode =
    ap (λ d. omode_permits d omode) (low_three (mode / 2 ^ 0 % 256) ∙ omega arith)

digit-user_relation :
    (user : List ℕ) (st : Stat) → digit (user_relation user st) st.mode ≡ user_digit user st
unfolding user_relation user_in_group
digit-user_relation user st = ground arith

-- A node may be opened exactly when the octal digit of its mode for the user (the first for its
-- owner, else the second for its group, else the last) grants the open mode; the other two digits do
-- not matter.
pub open_permission-grants :
    (st : Stat) (user : List ℕ) (omode : ℕ)
    → open_permission st user omode ≡ grants (user_digit user st) omode
unfolding open_permission
open_permission-grants st user omode =
    permits_as-digit (user_relation user st) st.mode omode
    ∙ omode_permits-grants _ omode (digit-lt (user_relation user st) st.mode)
    ∙ ap (λ d. grants d omode) (digit-user_relation user st)
