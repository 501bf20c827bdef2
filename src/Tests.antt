-- ===== src/Tests.antt =====
-- Concrete runs of the modelled code, on the data of Tests/Data.antt.
mod Codec
mod Configuring
mod Data
mod Inspecting
mod Fetching
mod Extracting
mod Converting
mod Publishing
mod Submitting
mod History
mod Serving
mod Declaring
mod Looping
