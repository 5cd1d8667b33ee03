-- ===== src/Examples.antt =====
-- Concrete runs of the theorems, on a toy cipher and a small vault.
mod Toy
mod Sealing
mod Transfers
mod Destinations
mod Epochs
mod Uploads
mod Images
mod Pictures
mod Sessions
mod Requests
mod Folders
mod Deletions
mod Counters
mod Headers
