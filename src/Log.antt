-- ===== src/Log.antt =====
-- Log of src/logger.cpp: the calls of syslog that the program makes. What vsyslog makes of a format
-- and its arguments is a message.
pub mod Laws
use fuse3_p7zip.Base.{Bytes, codes, List, [], ◌∷◌, ◌++◌, none}
use fuse3_p7zip.Singleton.{Static, instance_of, at_exit}

pub data Flag : Type 0 where
  log_cons log_ndelay : Flag

pub data Facility : Type 0 where
  log_user : Facility

pub data Priority : Type 0 where
  log_notice : Priority

-- A call of syslog.h.
pub data Call : Type 0 where
  openlog : Bytes → List Flag → Facility → Call
  vsyslog : Priority → Bytes → Call
  closelog : Call

-- The object has no members.
pub data Log : Type 0 where
  instance_log : Log

-- The constructor and the destructor.
unfoldable pub construct : List Call → Log × List Call
construct made = (
  instance_log,
  made ++ (openlog (codes "fuse3-p7zip") (log_cons ∷ log_ndelay ∷ []) log_user ∷ []),
)

unfoldable pub destruct : Log → List Call → List Call
destruct instance made = made ++ (closelog ∷ [])

-- `Log::printf`
unfoldable pub printf : Bytes → Log → List Call → List Call
printf message instance made = made ++ (vsyslog log_notice message ∷ [])

-- `log()`
unfoldable pub log : Static Log (List Call) → Log × Static Log (List Call)
unfolding construct instance_of
log s = instance_of construct s

-- `log().printf(...)`
unfoldable pub log_message : Bytes → Static Log (List Call) → Static Log (List Call)
unfolding log printf
log_message message s =
    let (instance, (object, made)) = log s in (object, printf message instance made)

unfoldable pub log_messages : List Bytes → Static Log (List Call) → Static Log (List Call)
unfolding log_message
log_messages [] s = s
log_messages (m ∷ ms) s = log_messages ms (log_message m s)

-- The calls of a process that logs those messages.
unfoldable pub process : List Bytes → List Call
unfolding log_messages destruct at_exit
process messages = at_exit destruct (log_messages messages (none, []))
