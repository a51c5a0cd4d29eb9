-- ===== src/Tenant.antt =====
-- Tenant isolation: services/api/src/common/tenant/tenant-context.service.ts,
-- services/api/src/common/tenant/ws-tenant-access.service.ts,
-- services/api/src/common/middleware/tenant.middleware.ts and
-- services/api/src/auth/guards/tenant.guard.ts. An identifier that is null or undefined is `none`; the
-- empty text, which a request may hold, is 0.
pub mod Context
pub mod Guard
pub mod Access
pub mod Store
