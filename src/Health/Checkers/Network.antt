-- ===== src/Health/Checkers/Network.antt =====
-- internal/health/http_check.go and tcp_check.go. What the network answers is a parameter: an error's
-- text, or what was received.
use elnssm.Common.{ℕ, ℤ, pos, eqb_ℤ, String, str_eq, Option, none, some, not, ◌&&◌, if◌then◌else◌}
use Prim.Native.String as Text
use elnssm.Model.{HealthCheckConfig, HealthCheckResult}
use elnssm.Health.Checkers.Defs.{CheckTexts, truncate, fails, passes}

pub data Answer {ℓ} (A : Type ℓ) : Type ℓ where
  error : String → Answer A
  value : A → Answer A

pub record HttpResponse : Type 0 where
  pub status_code : ℤ
  pub body : Answer String  -- the first 1 MB that io.ReadAll reads

-- The answers of http.NewRequestWithContext and of client.Do, for the method, the target and the
-- timeout.
pub record HttpWorld : Type 0 where
  pub new_request : String → String → Option String
  pub send_request : String → String → ℤ → Answer HttpResponse

abbrev pub http_method : HealthCheckConfig → String
http_method cfg = if str_eq cfg.method "" then "GET" else cfg.method

abbrev pub expected_status : HealthCheckConfig → ℤ
expected_status cfg = if eqb_ℤ cfg.expect_status (pos 0) then pos 200 else cfg.expect_status

-- The message of a response that fails, or none.
abbrev pub check_body : CheckTexts → String → Answer String → Option String
check_body t expected (error e) = some (Text.◌++◌ "reading body: " e)
check_body t expected (value body) =
    if t.contains body expected
    then none
    else some (Text.◌++◌ "body does not contain expected string " (t.quote expected))

unfoldable pub check_response : CheckTexts → HealthCheckConfig → HttpResponse → Option String
check_response t cfg r =
    if not (eqb_ℤ r.status_code (expected_status cfg))
    then some (
        Text.◌++◌ "expected status " (
          Text.◌++◌ (t.decimal (expected_status cfg))
            (Text.◌++◌ ", got " (t.decimal r.status_code))))
    else if not (str_eq cfg.expect_body "")
    then check_body t cfg.expect_body r.body
    else none

abbrev pub with_code : ℤ → HealthCheckResult → HealthCheckResult
with_code code r = record r { status_code = code }

abbrev pub responded : CheckTexts → ℤ → ℕ → Option String → HealthCheckResult
responded t code start (some message) = with_code code (fails "http" start message)
responded t code start none =
    with_code code (passes "http" start (Text.◌++◌ "HTTP " (Text.◌++◌ (t.decimal code) " OK")))

abbrev pub answered : CheckTexts → HealthCheckConfig → ℕ → Answer HttpResponse → HealthCheckResult
answered t cfg start (error e) = fails "http" start (Text.◌++◌ "request failed: " e)
answered t cfg start (value r) = responded t r.status_code start (check_response t cfg r)

abbrev pub requested :
    CheckTexts → HttpWorld → HealthCheckConfig → ℕ → Option String → HealthCheckResult
requested t w cfg start (some e) = fails "http" start (Text.◌++◌ "creating request: " e)
requested t w cfg start none =
    answered t cfg start (w.send_request (http_method cfg) cfg.target cfg.timeout)

-- HTTPChecker.Check
unfoldable pub check_http : CheckTexts → HttpWorld → ℕ → HealthCheckConfig → HealthCheckResult
unfolding check_response
check_http t w start cfg = requested t w cfg start (w.new_request (http_method cfg) cfg.target)

-- The answers of dialing, conn.SetDeadline, conn.Write and conn.Read; a read that meets the end of the
-- stream is a value.
pub record TcpWorld : Type 0 where
  pub dial : String → ℤ → Option String
  pub set_deadline : Option String
  pub write : String → Option String
  pub read : Answer String

abbrev pub tcp_timeout : HealthCheckConfig → ℤ
tcp_timeout cfg = if eqb_ℤ cfg.timeout (pos 0) then pos 5000000000 else cfg.timeout

abbrev pub sent_error : TcpWorld → String → Option String
sent_error w send = if str_eq send "" then none else w.write (Text.◌++◌ send "\r\n")

abbrev pub check_reply : CheckTexts → String → Answer String → Option String
check_reply t expected (error e) = some (Text.◌++◌ "read failed: " e)
check_reply t expected (value reply) =
    if t.contains reply expected
    then none
    else some (
        Text.◌++◌ "expected " (
          Text.◌++◌ (t.quote expected)
            (Text.◌++◌ " in response, got " (t.quote (truncate t reply 200)))))

abbrev pub reply_error : CheckTexts → TcpWorld → String → Option String
reply_error t w expected = if str_eq expected "" then none else check_reply t expected w.read

abbrev pub prefixed : String → Option String → Option String
prefixed p none = none
prefixed p (some e) = some (Text.◌++◌ p e)

abbrev pub or_else : Option String → Option String → Option String
or_else none later = later
or_else (some e) later = some e

-- The first failure of the exchange on the connection.
unfoldable pub exchange : CheckTexts → TcpWorld → HealthCheckConfig → Option String
exchange t w cfg =
    or_else (prefixed "set deadline failed: " w.set_deadline)
      (or_else (prefixed "send failed: " (sent_error w cfg.send)) (reply_error t w cfg.expect_resp))

abbrev pub exchanged : HealthCheckConfig → ℕ → Option String → HealthCheckResult
exchanged cfg start (some message) = fails "tcp" start message
exchanged cfg start none =
    passes "tcp" start (Text.◌++◌ "TCP check to " (Text.◌++◌ cfg.target " passed"))

abbrev pub dialed :
    CheckTexts → TcpWorld → HealthCheckConfig → ℕ → Option String → HealthCheckResult
dialed t w cfg start (some e) = fails "tcp" start (Text.◌++◌ "connection failed: " e)
dialed t w cfg start none =
    if str_eq cfg.send "" && str_eq cfg.expect_resp ""
    then passes "tcp" start (Text.◌++◌ "TCP connection to " (Text.◌++◌ cfg.target " successful"))
    else exchanged cfg start (exchange t w cfg)

-- TCPChecker.Check
unfoldable pub check_tcp : CheckTexts → TcpWorld → ℕ → HealthCheckConfig → HealthCheckResult
unfolding exchange
check_tcp t w start cfg = dialed t w cfg start (w.dial cfg.target (tcp_timeout cfg))
