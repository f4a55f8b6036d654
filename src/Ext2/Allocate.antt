-- ===== src/Ext2/Allocate.antt =====
-- `allocate` of helper.c: what a new inode gets by its mode.
use cscc.Prelude.{ℕ, ◌+◌, ◌*◌, ◌%◌, ◌^◌, List, [], ◌∷◌, ◌++◌, length, if◌then◌else◌, Memory, store}
use cscc.Ext2.Blocks.{block_size, u16, put_u8, put_u16, put_u32, find_free_block}
use cscc.Ext2.Directory.{dot}
use cscc.Ext2.Run.{Run, done, ◌>>=◌, ◌>>◌}
use cscc.Ext2.Inodes.{
  Fs, i_size, i_links_count, i_blocks, i_block, s_iflnk, s_ifreg, s_ifdir, has_type, inode_at,
  inside,
}

-- EXT2_FT_REG_FILE and EXT2_FT_DIR.
abbrev pub ft_reg_file : ℕ
ft_reg_file = 1

abbrev pub ft_dir : ℕ
ft_dir = 2

-- One more link, on an `unsigned short`.
abbrev pub add_link : (a : ℕ) → Memory → Memory
add_link a disk = put_u16 (a + i_links_count) ((u16 disk (a + i_links_count) + 1) % 2 ^ 16) disk

-- An entry with its name as `strcpy` writes it, the zero byte included.
abbrev pub put_entry : (pos inode rec_len : ℕ) (name : List ℕ) → Memory → Memory
put_entry pos inode rec_len name disk = put_u32 pos inode (
    put_u8 (pos + 7) ft_dir (
      put_u8 (pos + 6) (length name)
        (store (put_u16 (pos + 4) rec_len disk) (pos + 8) (name ++ (0 ∷ [])))))

-- A symbolic link: its block holds the path, with a zero byte behind it.
unfoldable pub allocate_link : (a : ℕ) (path : List ℕ) → Memory → Run Memory
allocate_link a path disk = do
  let got = find_free_block disk
  let block = got.0 * block_size % 2 ^ 32
  inside block (length path + 1)
  done (
      put_u32 (a + i_size) (length path)
        (put_u32 (a + i_block) got.0 (store got.1 block (path ++ (0 ∷ [])))))

-- A directory: a block with the entries "." and "..", and one more link to the parent, whose inode
-- stands at `up`.
unfoldable pub allocate_dir : (a up inode parent : ℕ) → Memory → Run Memory
allocate_dir a up inode parent disk = do
  let sized =
      put_u32 (a + i_size) block_size
        (put_u32 (a + i_blocks) 2 (put_u16 (a + i_links_count) 2 disk))
  let got = find_free_block sized
  let pos = got.0 * block_size % 2 ^ 32
  inside pos 24
  inside up 128
  done (
      add_link up (
        put_entry (pos + 12) parent 1012 (46 ∷ 46 ∷ [])
          (put_entry pos inode 12 dot (put_u32 (a + i_block) got.0 got.1))))

-- The modes but these three change nothing more.
unfoldable pub allocate : (inode parent mode : ℕ) (path : List ℕ) → Fs → Run Fs
unfolding allocate_link allocate_dir
allocate inode parent mode path fs = do
  let a = inode_at fs.disk inode
  inside a 128
  let typed = put_u16 a mode fs.disk
  disk ←
      (if has_type s_ifreg mode
        then done (add_link a typed)
        else if has_type s_iflnk mode
        then allocate_link a path typed
        else if has_type s_ifdir mode
        then allocate_dir a (inode_at fs.disk parent) inode parent typed
        else done typed)
  done (record fs { disk = disk })
