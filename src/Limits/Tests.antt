-- ===== src/Limits/Tests.antt =====
-- Runs of vlimits.c on concrete input.
use vpopmail.Common.{
  ◌≡◌, refl, arith, some, none, true, Bool, Bytes, [], Option, codes, equal, if◌then◌else◌,
}
use vpopmail.Common.Int.{pos, negsuc}
use vpopmail.Common.Decimal.{read_int, print_int}
use vpopmail.Limits.{Vlimits, default_limits, write_limits_file}
use vpopmail.Limits.Line.{parse_line}
use vpopmail.Limits.Reader.{read_limits_file}
use vpopmail.Limits.Reader.Lines.{fold_lines, read_limits_file-fold_lines}
use vpopmail.Limits.Written.{forgotten}
use vpopmail.Limits.RoundTrip.{IsWritable, read-write}
use vpopmail.Limits.Mask.{get_flag_mask, placed, get_flag_mask-placed}
use vpopmail.Limits.Store.{Files, copied, set_limits, get_limits, del_limits, get-set}

abbrev sample : Vlimits
sample = record default_limits {
  maxaliases = pos 12;
  diskquota = negsuc 4;
  disable_pop = true;
  perm_alias = 5;
  perm_maillist_users = 7;
}

abbrev text : Bytes
text = codes "# x\nmaxaliases: 12\ndisable_pop\n\nquota\t-5"

reads :
    read_limits_file (some text) default_limits
    ≡ some (record default_limits { maxaliases = pos 12; disable_pop = true; diskquota = negsuc 4 })
unfolding read_limits_file parse_line read_int
reads = refl

-- The users' permissions are written into the line of another one, and lost.
rereads :
    read_limits_file (some (write_limits_file sample)) default_limits
    ≡ some (record sample { perm_maillist_users = 0 })
unfolding read_limits_file parse_line read_int write_limits_file print_int
rereads = refl

sample-IsWritable : IsWritable sample
sample-IsWritable = omega arith

read_limits_file-fold_lines_example :
    read_limits_file (some text) default_limits ≡ some (fold_lines [] text default_limits)
read_limits_file-fold_lines_example =
    read_limits_file-fold_lines text default_limits (omega arith) (omega arith)

read-write_example :
    read_limits_file (some (write_limits_file sample)) default_limits ≡ some (forgotten sample)
read-write_example = read-write sample sample-IsWritable

get_flag_mask-placed_example : get_flag_mask sample ≡ placed sample
get_flag_mask-placed_example = get_flag_mask-placed sample

abbrev assign : Bytes → Option Bytes
assign d = if equal d (codes "a.b") then some (codes "/d") else none

abbrev no_files : Files
no_files p = none

abbrev always : Bytes → Bool
always p = true

abbrev global : Bytes
global = codes "/etc/vlimits.default"

abbrev path : Bytes
path = codes "/d/.qmailadmin-limits"

abbrev with_limits : Files
with_limits p = if equal path p then some (write_limits_file sample) else none

abbrev deleted : Files
deleted p = if equal path p then none else with_limits p

sets : set_limits assign global always (codes "a.b") sample no_files ≡ some with_limits
unfolding set_limits equal
sets = refl

deletes : del_limits assign global always (codes "a.b") with_limits ≡ some deleted
unfolding del_limits equal
deletes = refl

get-set_example :
    get_limits assign global always (codes "a.b") with_limits ≡ some (forgotten sample)
get-set_example = get-set assign global always (codes "a.b") sample no_files sample-IsWritable sets

assigned : assign (copied (codes "a.b")) ≡ some (codes "/d")
unfolding equal
assigned = refl
