-- ===== src/Api/Auth.antt =====
-- internal/api/auth.go and internal/api/middleware.go: who may call the API.
pub mod Defs
pub mod Middleware
pub mod Access
pub mod Credentials
pub mod Grants
pub use Defs.{
  AuthConfig, Request, Library, User, anonymous, local_admin, token_user, named, Response, next,
  unauthorized, forbidden,
}
unfoldable pub use Defs.{
  is_loopback, ip_whitelist, extract_ip, strip_prefix, split_colon, same_bytes,
}
unfoldable pub use Middleware.{
  negotiate_auth, token_auth, basic_auth, password_auth, scheme_auth, mode_auth, kept, header_auth,
  sspi_websocket, sspi_request, sspi_auth, auth_middleware,
}
