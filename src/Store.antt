-- ===== src/Store.antt =====
-- frontend/src/store/index.ts: the two Zustand stores, as records that each action maps to the next
-- state. `Data` is `useDataStore`, `Ui` is `useUIStore`, and `Views` the
-- part of it that keeps the state of each view.
pub mod Data
pub mod Ui
pub mod Views
