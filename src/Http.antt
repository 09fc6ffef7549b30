-- ===== src/Http.antt =====
-- The HTTP side of the program: the error filter, the throttler's tracker, the middleware, origins
-- and the controller.
pub mod ErrorFilter
pub mod Throttle
pub mod Middleware
pub mod Origin
pub mod Controller
pub mod Bodies
pub mod Logger
