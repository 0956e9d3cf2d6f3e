-- ===== src/Web.antt =====
-- apps/web: the console's permissions, the queue in the browser, the routes and the client.
pub mod Permissions
pub mod Offline
pub mod FieldActions
pub mod Middleware
pub mod Client
pub mod Dates
pub mod Endpoints
pub mod Hooks
pub mod Wizard
pub mod Supplies
pub mod OrderPage
pub mod Bags
mod Tests
