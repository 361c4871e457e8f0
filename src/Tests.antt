-- ===== src/Tests.antt =====
-- The theorems at concrete zones, entries and addresses.
mod Zone
mod Parts
mod Runs
mod Proxy
mod Stream
mod Captcha
mod Pages
mod Requests
mod Usage
mod Inspections
