-- ===== src/Analyzer/Prefilter/Summary.antt =====
-- `process_tree` and `event_summary` of analyzer/src/prefilter.cpp.
use pqc_edr.Base.{Bool, false, ◌&&◌, List, [], ◌∷◌, ◌++◌, take, ◌==◌, not, is_empty, if◌then◌else◌}
use pqc_edr.Base.Words.{Bytes}
use pqc_edr.Base.Text.{text, c_string, decimal}
use pqc_edr.Event.{
  SecurityEvent, Ancestor, evt_execve, evt_tcp_connect, evt_file_open, evt_agent_drop, fa_sensitive,
  has_access, ancestors,
}
use pqc_edr.Analyzer.Libc.{Libc, snprintf}
use pqc_edr.Analyzer.Prefilter.Paths.{printable}

abbrev or_unknown : Bytes → Bytes
or_unknown s = if is_empty s then text "?" else s

-- `anc.pid == 0 && anc.comm[0] == '\0'`
unfoldable pub no_ancestor : Ancestor → Bool
no_ancestor a = a.pid == 0 && is_empty (c_string a.comm)

-- The loop of `process_tree`: it stops at the first empty generation.
unfoldable pub tree_of : List Ancestor → Bytes
unfolding no_ancestor
tree_of [] = []
tree_of (a ∷ as') =
    let rest = (text "<-" ++ or_unknown (c_string a.comm)) ++ tree_of as' in
    if no_ancestor a then [] else rest

unfoldable pub process_tree : SecurityEvent → Bytes
unfolding tree_of
process_tree ev = or_unknown (c_string ev.comm) ++ tree_of (take ancestors ev.anc)

-- `ev.anc[0].pid != 0 || ev.anc[0].comm[0] != '\0'`
unfoldable pub has_lineage : SecurityEvent → Bool
unfolding no_ancestor
has_lineage ev = elim ev.anc [ [] ↦ false | a ∷ as' ↦ not (no_ancestor a) ]

module _ (libc : Libc) where
  -- The text that `snprintf` puts into `buf`, before it is cut to the buffer.
  unfoldable pub summary_text : SecurityEvent → Bytes
  summary_text ev =
      let comm = printable ev.comm in
      if ev.type == evt_execve
      then text "execve comm=" ++ (comm ++ (text " file=" ++ printable ev.execve.filename))
      else if ev.type == evt_tcp_connect
      then text "connect comm="
        ++ (comm
            ++ (text " dst="
                ++ (libc.inet_ntop ev.tcp.daddr ++ (text ":" ++ decimal ev.tcp.dport))))
      else if ev.type == evt_file_open
      then text "fileopen comm="
        ++ (comm
            ++ (text " "
                ++ ((if has_access ev.file.access fa_sensitive
                      then text "read-sensitive"
                      else text "write")
                    ++ (text " "
                        ++ (if is_empty (c_string ev.file.path)
                            then text "ino=" ++ decimal ev.file.ino
                            else printable ev.file.path)))))
      else if ev.type == evt_agent_drop
      then text "agent-drop dropped="
        ++ (decimal ev.drop.dropped
            ++ (text " total="
                ++ (decimal ev.drop.dropped_total
                    ++ (text " sent=" ++ decimal ev.drop.sent_total))))
      else text "unknown type=" ++ decimal ev.type

  unfoldable pub event_summary : SecurityEvent → Bytes
  unfolding summary_text process_tree has_lineage
  event_summary ev =
      let out = snprintf 256 (summary_text ev) in
      if has_lineage ev then out ++ (text " tree=[" ++ (process_tree ev ++ text "]")) else out
