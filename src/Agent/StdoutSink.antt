-- ===== src/Agent/StdoutSink.antt =====
-- The sink that prints events: `StdoutSink` of agent/src/main.cpp, as the bytes that it writes for one.
use pqc_edr.Base.{ℕ, ◌-◌, [], ◌∷◌, ◌++◌, length, replicate, is_empty, ◌==◌, if◌then◌else◌}
use pqc_edr.Base.Words.{Bytes}
use pqc_edr.Base.Text.{text, c_string, decimal}
use pqc_edr.Event.{
  SecurityEvent, evt_execve, evt_tcp_connect, evt_file_open, fa_write, fa_create, fa_sensitive,
  fa_exec, has_access,
}
use pqc_edr.EventsFile.{Numbers}

-- `%-6u` and the like: spaces on the right, up to the width.
abbrev pub padded : ℕ → Bytes → Bytes
padded width s = s ++ replicate (width - length s) 32

-- The letters of the access, as `acc`.
unfoldable pub access_letters : ℕ → Bytes
access_letters a =
    let w = if has_access a fa_write then text "w" else [] in
    let c = if has_access a fa_create then text "c" else [] in
    let s = if has_access a fa_sensitive then text "s" else [] in
    let x = if has_access a fa_exec then text "x" else [] in w ++ (c ++ (s ++ x))

abbrev pub or_else : Bytes → Bytes → Bytes
or_else s other = if is_empty s then other else s

-- What the three formats begin with.
unfoldable pub printed_common : SecurityEvent → Bytes
printed_common e =
    text "pid="
    ++ (padded 6 (decimal e.pid)
        ++ (text " ppid="
            ++ (padded 6 (decimal e.ppid) ++ (text " comm=" ++ padded 16 (c_string e.comm)))))

unfoldable pub printed : Numbers → SecurityEvent → Bytes
printed lib e =
    if e.type == evt_execve
    then text "EXECVE   "
      ++ (printed_common e ++ (text " file=" ++ (c_string e.execve.filename ++ 10 ∷ [])))
    else if e.type == evt_tcp_connect
    then text "CONNECT  "
      ++ (printed_common e
          ++ (text " dst="
              ++ (lib.inet_ntop e.tcp.daddr ++ (text ":" ++ (decimal e.tcp.dport ++ 10 ∷ [])))))
    else if e.type == evt_file_open
    then text "FILE     "
      ++ (printed_common e
          ++ (text " access="
              ++ (padded 4 (or_else (access_letters e.file.access) (text "-"))
                  ++ (text " ino="
                      ++ (decimal e.file.ino
                          ++ (text " path="
                              ++ (or_else (c_string e.file.path) (text "(inode-only)")
                                  ++ 10 ∷ [])))))))
    else []
