-- ===== src/Examples.antt =====
-- Tests and instances of the theorems at concrete inputs.
mod Numbers
mod Classes
mod Shadows
mod Pages
mod Mappings
mod Tagging
mod Scanning
mod Interleavings
mod Allocation
mod Sessions
mod Serving
mod Killing
mod Listings
mod Releasing
mod Searching
