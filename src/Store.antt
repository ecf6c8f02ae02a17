-- ===== src/Store.antt =====
-- store/: the files of a workspace folder, the include graph between them and the index of a file.
pub mod Graph
pub mod View
pub mod Index
