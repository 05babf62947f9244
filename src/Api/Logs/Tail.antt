-- ===== src/Api/Logs/Tail.antt =====
-- The lines of a log file that a client gets (internal/api/handlers_logs.go).
use elnssm.Common.{ℕ, ◌-◌, String, List, length, drop}
use elnssm.Api.Logs.{
  log_read_error, log_not_found, LogFile, absent, unreadable, lines, LogReply, content, joined,
}

-- The last n of a list.
abbrev pub last_of : ℕ → List String → List String
last_of n l = drop (length l - n) l

abbrev pub answer : ℕ → LogFile → LogReply
answer n absent = log_not_found
answer n unreadable = log_read_error
answer n (lines l) = content (joined (last_of n l))
