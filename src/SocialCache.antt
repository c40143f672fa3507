-- ===== src/SocialCache.antt =====
-- The package socialcache: the lists of friends, groups and chats that the client keeps. A map of
-- pointers is a `Store` of the structs; each method holds the list's mutex from start to end, so
-- it is one function of the list.
pub mod Keyed
pub mod Friends
pub mod Groups
pub mod Chats
pub mod FriendLaws
pub mod GroupLaws
pub mod ChatLaws
