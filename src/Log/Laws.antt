-- ===== src/Log/Laws.antt =====
-- Which calls of syslog a process makes (src/logger.cpp).
use fuse3_p7zip.Base.{
  Bytes, codes, ◌≡◌, refl, ap, ◌∙◌, List, [], ◌∷◌, ◌++◌, some, append_assoc, append-nil, sym,
}
use mathlib.Core.List.{map}
use fuse3_p7zip.Singleton.{instance_of, at_exit}
use fuse3_p7zip.Log.{
  Call, openlog, vsyslog, closelog, log_cons, log_ndelay, log_user, log_notice, instance_log,
  log_message, log_messages, process, log, printf, construct, destruct,
}

abbrev pub opening : Call
opening = openlog (codes "fuse3-p7zip") (log_cons ∷ log_ndelay ∷ []) log_user

log_messages-append :
    (ms : List Bytes) (made : List Call)
    → log_messages ms (some instance_log, made)
      ≡ (some instance_log, made ++ map (vsyslog log_notice) ms)
unfolding log_messages log_message log printf instance_of
log_messages-append [] made = ap (λ c. (some instance_log, c)) (sym (append-nil made))
log_messages-append (m ∷ ms) made =
    log_messages-append ms (made ++ (vsyslog log_notice m ∷ []))
    ∙ ap (λ c. (some instance_log, c))
        (append_assoc made (vsyslog log_notice m ∷ []) (map (vsyslog log_notice) ms))

-- A process that logs nothing calls nothing. Any other opens the log once, before its first message,
-- logs every message in order, and closes the log once, at its end.
pub process_lem :
    (m : Bytes) (ms : List Bytes)
    → (process [] ≡ [])
      × (process (m ∷ ms) ≡ opening ∷ (map (vsyslog log_notice) (m ∷ ms) ++ (closelog ∷ [])))
unfolding process log_messages log_message log printf instance_of construct destruct at_exit
process_lem m ms =
    (refl, ap (at_exit destruct) (log_messages-append ms (opening ∷ vsyslog log_notice m ∷ [])))
