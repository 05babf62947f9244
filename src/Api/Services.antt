-- ===== src/Api/Services.antt =====
-- internal/api/handlers_services.go and validation.go: adding and updating services.
pub mod Validation
pub mod Defs
pub mod Complete
