-- ===== src/Time.antt =====
-- src/time and user/date: the clock, the calendar and the kernel's timers.
pub mod Calendar
pub mod Gmtime
pub mod Rtc
pub mod Timers
