-- ===== src/Examples.antt =====
-- Runs of the model on concrete input.
mod Access
mod Deliveries
mod Reads
mod Pages
mod Marked
mod Litter
mod Presence
mod Settings
mod Calling
mod Serving
mod Starting
mod Lines
mod Arriving
mod Posting
mod Marking
mod Tables
mod Warned
mod Contract
mod Listed
mod Lives
mod Sending
