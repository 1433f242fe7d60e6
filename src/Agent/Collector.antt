-- ===== src/Agent/Collector.antt =====
-- The kernel side of the agent: agent/bpf/collector.bpf.c.
-- What a BPF helper gives is an argument: the task that runs, the bytes that a copy of a string
-- stores, the entry that the ring buffer reserves. A hook returns the event that it submits.
pub mod Filter
pub mod Chain
use pqc_edr.Base.{
  ℕ, zero, suc, ◌+◌, Bool, true, false, not, ◌&&◌, ◌||◌, Option, none, some, List, [], ◌∷◌, drop,
  get_or, bit_or, ◌==◌, if◌then◌else◌,
}
use pqc_edr.Base.Words.{Bytes, join_bytes}
use pqc_edr.Event.{
  SecurityEvent, Ancestor, ancestors, evt_execve, evt_tcp_connect, evt_file_open, fa_write,
  fa_sensitive, fa_exec, has_access,
}

abbrev pub af_inet : ℕ
af_inet = 2

abbrev pub fmode_write : ℕ
fmode_write = 0x2

abbrev pub fmode_exec : ℕ
fmode_exec = 0x20

-- The current task as the helpers show it, with the chain of its `real_parent`s.
pub record Task : Type 0 where
  pub pid : ℕ
  pub ppid : ℕ
  pub now : ℕ
  pub comm : Bytes
  pub parents : List Ancestor

-- The loop of `fill_ancestry` over the entries of `anc`; an entry past the last parent stays.
unfoldable pub fill_ancestry : ℕ → List Ancestor → List Ancestor → List Ancestor
fill_ancestry zero anc parents = anc
fill_ancestry (suc left) [] parents = []
fill_ancestry (suc left) (a ∷ anc) [] = a ∷ anc
fill_ancestry (suc left) (a ∷ anc) (t ∷ parents) = t ∷ fill_ancestry left anc parents

unfoldable pub fill_common : SecurityEvent → ℕ → Task → SecurityEvent
fill_common e type task = record e {
  type = type;
  pid = task.pid;
  ppid = task.ppid;
  ts_ns = task.now;
  comm = task.comm;
  anc = fill_ancestry ancestors e.anc task.parents;
}

-- `filename` is what the copy from user space stores.
unfoldable pub handle_execve : Option SecurityEvent → Task → Bytes → Option SecurityEvent
handle_execve none task filename = none
handle_execve (some e) task filename =
    some (record (fill_common e evt_execve task) { execve = record { filename = filename } })

-- The address in network order, and the two bytes of the port in network order.
unfoldable pub handle_tcp_connect : Option SecurityEvent → Task → ℕ → ℕ → ℕ → Option SecurityEvent
handle_tcp_connect none task addr hi lo = none
handle_tcp_connect (some e) task addr hi lo = some (record (fill_common e evt_tcp_connect task) {
  tcp = record { daddr = addr; dport = join_bytes hi lo; family = af_inet };
})

-- `p[i] == c`, for the characters of a text from `i` on
abbrev pub at_is : Bytes → ℕ → ℕ → Bool
at_is p i c = get_or p i 0 == c

unfoldable pub is_staging : Bytes → Bool
is_staging p =
    if not (at_is p 0 47)
    then false
    else if at_is p 1 116 && (at_is p 2 109 && (at_is p 3 112 && at_is p 4 47))
    then true
    else if at_is p 1 118
        && (at_is p 2 97
            && (at_is p 3 114
                && (at_is p 4 47
                    && (at_is p 5 116 && (at_is p 6 109 && (at_is p 7 112 && at_is p 8 47))))))
    then true
    else if at_is p 1 100
        && (at_is p 2 101
            && (at_is p 3 118
                && (at_is p 4 47
                    && (at_is p 5 115 && (at_is p 6 104 && (at_is p 7 109 && at_is p 8 47))))))
    then true
    else false

-- An open file as the helpers show it: `sensitive` is what the lookup of its inode finds, `scratch`
-- whether there is a scratch buffer, `d_path` the buffer after `bpf_d_path`, or `none` where it fails.
pub record OpenFile : Type 0 where
  pub mode : ℕ
  pub ino : ℕ
  pub dev : ℕ
  pub sensitive : Bool
  pub scratch : Bool
  pub d_path : Option Bytes

-- `e->u.file.path[0] = '\0'`
abbrev pub cleared : Bytes → Bytes
cleared [] = []
cleared (b ∷ bs) = 0 ∷ bs

-- The access mask and the path that is copied, or `none` where the hook returns early.
unfoldable pub file_wanted : OpenFile → Option (ℕ × Option Bytes)
file_wanted f =
    let is_write = has_access f.mode fmode_write in
    if not f.sensitive && not is_write
    then none
    else if is_write
    then (if not f.scratch then none else elim f.d_path [
      | none ↦ none
      | some buf ↦
          if not f.sensitive && not (is_staging buf)
          then none
          else some (bit_or 0 fa_write, some buf)
    ])
    else some (0, none)

-- `if (sens) access |= …; if (mode & FMODE_EXEC) access |= …;`
unfoldable pub file_access : OpenFile → ℕ → ℕ
file_access f access =
    let seen = if f.sensitive then bit_or access fa_sensitive else access in
    if has_access f.mode fmode_exec then bit_or seen fa_exec else seen

module _ (copy : Bytes → Bytes) where
  -- `copy` is what `bpf_probe_read_kernel_str` stores in a `char` array of the size of a path.
  abbrev pub file_event : SecurityEvent → Task → OpenFile → ℕ × Option Bytes → SecurityEvent
  file_event e task f wanted = record (fill_common e evt_file_open task) {
    file = record {
      path = elim wanted.1 [ none ↦ cleared e.file.path | some buf ↦ copy buf ];
      access = file_access f wanted.0;
      ino = f.ino;
      dev = f.dev;
    };
  }

  -- The reservation and what follows it.
  unfoldable pub submit :
      Option SecurityEvent → Task → OpenFile → Option (ℕ × Option Bytes) → Option SecurityEvent
  submit reserved task f none = none
  submit none task f (some wanted) = none
  submit (some e) task f (some wanted) = some (file_event e task f wanted)

  unfoldable pub handle_file_open : Option SecurityEvent → Task → OpenFile → Option SecurityEvent
  handle_file_open reserved task f = submit reserved task f (file_wanted f)
